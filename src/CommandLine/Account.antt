-- ===== src/CommandLine/Account.antt =====
-- What the command line prints of a session that has not panicked (agent/src/main.rs).
use attenuate_agent.Prelude.{
  ℕ, List, [], ◌∷◌, ◌++◌, map, Text, Result, ok, err, panic, ok-injective, ◌≡◌, ◌≢◌, refl, subst,
  ap, ◌∙◌, inl, inr, arith,
}
use attenuate_agent.External.{Uuid, System}
use attenuate_agent.Audit.{AuditEntry, AuditEvent, root_minted, verify_chain}
use attenuate_agent.Tools.{ToolCall, Crates}
use attenuate_agent.Agent.Mode.{AuthzMode}
use attenuate_agent.Agent.Feedback.{StepOutcome}
use attenuate_agent.Agent.Orchestrator.{Orchestrator}
use attenuate_agent.Agent.Principal.{
  Principal, Session, scripted, scripted_new, turn_budget, run, run_principal, expect_outcomes,
}
use attenuate_agent.Agent.AuditLog.{IsLogged, run_principal-IsLogged}
use attenuate_agent.Agent.Trail.{events}
use attenuate_agent.Agent.Accounts.{Trails, run_principal-Accounted}
use attenuate_agent.CommandLine.{Exit, Outcome}
use attenuate_agent.CommandLine.Report.{mode_line, report_lines}

module _ (sys : System) (crates : Crates) where
  abbrev pub Verifies : List AuditEntry → Type 0
  Verifies log = verify_chain crates.chrono crates.hash log ≡ ok tt

  -- The calls of some outcomes are those that a file held, at some moment of the run.
  abbrev pub Scripted : (Text → Result Text (List ToolCall)) → Text → List StepOutcome → Type 0
  Scripted parse_calls path outcomes =
      (v : sys.World) × (content : Text) × ((sys.read_to_string path v).0 ≡ ok content)
      × (parse_calls content ≡ ok (map (λ (o : StepOutcome). o.call) outcomes))

  -- The outcomes are of the calls file that the arguments behind the manifest name, if they do.
  abbrev pub Feeds : (Text → Result Text (List ToolCall)) → List Text → List StepOutcome → Type 0
  Feeds parse_calls [] outcomes = Unit
  Feeds parse_calls (path ∷ more) outcomes = Scripted parse_calls path outcomes

  -- The mode, one line for each outcome and the events of a whole log were printed. The log
  -- verifies, and holds the minting for the task and then exactly the record of the outcomes.
  pub record IsReport (mode : AuthzMode) (task_id : Uuid) (out : Outcome)
      (outcomes : List StepOutcome) : Type 0 where
    pub log : List AuditEntry
    pub printed : out.printed ≡ mode_line mode ∷ report_lines crates.uuid outcomes log
    pub verified : Verifies log
    pub added : List AuditEvent
    pub trails : Trails task_id mode outcomes added
    pub recorded : map (λ (entry : AuditEntry). entry.event) log ≡ root_minted task_id ∷ added

  -- What `new` has established of an orchestrator.
  pub record IsNew (mode : AuthzMode) (task_id : Uuid) (o : Orchestrator) : Type 0 where
    pub logged : IsLogged sys crates [] o
    pub same_mode : o.mode ≡ mode
    pub same_task : o.task_id ≡ task_id
    pub minted : events o ≡ root_minted task_id ∷ []

  -- What is reported of a session that started so and has not panicked.
  pub session-IsReport :
      (mode : AuthzMode) (task_id : Uuid) (o : Orchestrator) (w : sys.World) (pr : Principal)
      (turns : ℕ) (p : pr.Self) (exit : Exit)
      → IsNew mode task_id o
      → ((run_principal sys crates pr turns
            (record { state = (o, w); principal = p; outcomes = [] })).0
          ≢ panic)
      → (let t =
            (run_principal sys crates pr turns
              (record { state = (o, w); principal = p; outcomes = [] })).1 in
          IsReport mode task_id
            (record {
              printed = mode_line mode ∷ report_lines crates.uuid t.outcomes t.state.0.audit_log;
              exit = exit;
            })
            t.outcomes)
  session-IsReport mode task_id o w pr turns p exit fresh ends =
      let s : Session sys crates pr = record { state = (o, w); principal = p; outcomes = [] } in
      let l = run_principal-IsLogged sys crates pr turns s fresh.logged.verified fresh.logged.tip in
      elim (run_principal-Accounted sys crates pr turns s refl) [
        | inl e ↦ absurd (ends e)
        | inr (added, trails, logged) ↦ record {
          log = (run_principal sys crates pr turns s).1.state.0.audit_log;
          printed = refl;
          verified = l.verified;
          added = added;
          trails =
              subst (λ m. Trails task_id m (run_principal sys crates pr turns s).1.outcomes added)
                fresh.same_mode
                (subst (λ u. Trails u o.mode (run_principal sys crates pr turns s).1.outcomes added)
                  fresh.same_task trails);
          recorded = logged ∙ ap (λ es. es ++ added) fresh.minted;
        }
      ]

  pub run-IsReport :
      (mode : AuthzMode) (task_id : Uuid) (o : Orchestrator) (w : sys.World) (calls : List ToolCall)
      (outcomes : List StepOutcome) (exit : Exit)
      → IsNew mode task_id o
      → (run sys crates calls (o, w)).0 ≡ ok outcomes
      → IsReport mode task_id
          (record {
            printed =
                mode_line mode
                ∷ report_lines crates.uuid outcomes (run sys crates calls (o, w)).1.0.audit_log;
            exit = exit;
          })
          outcomes
  unfolding run expect_outcomes
  run-IsReport mode task_id o w calls outcomes exit fresh h =
      let p = scripted_new calls in
      from
        (run_principal sys crates scripted (turn_budget p)
          (record { state = (o, w); principal = p; outcomes = [] }))
        h (session-IsReport mode task_id o w scripted (turn_budget p) p exit fresh)
    where
      from :
          (q : Result Text (Unit {0}) × Session sys crates scripted)
          → (expect_outcomes sys crates q).0 ≡ ok outcomes
          → (q.0 ≢ panic
              → IsReport mode task_id
                  (record {
                    printed =
                        mode_line mode
                        ∷ report_lines crates.uuid q.1.outcomes q.1.state.0.audit_log;
                    exit = exit;
                  })
                  q.1.outcomes)
          → IsReport mode task_id
              (record {
                printed =
                    mode_line mode
                    ∷ report_lines crates.uuid outcomes
                        (expect_outcomes sys crates q).1.0.audit_log;
                exit = exit;
              })
              outcomes
      from (ok done, t) e k =
          subst
            (λ os.
              IsReport mode task_id
                (record {
                  printed = mode_line mode ∷ report_lines crates.uuid os t.state.0.audit_log;
                  exit = exit;
                })
                os)
            (ok-injective e) (k (λ x. cc))
      from (err x, t) e k = absurd (ground arith)
      from (panic, t) e k = absurd (ground arith)
