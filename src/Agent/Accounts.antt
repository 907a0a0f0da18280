-- ===== src/Agent/Accounts.antt =====
-- A whole run in the audit log: `run_principal` of agent/src/lib.rs records each outcome that it
-- collects, in their order, and nothing else.
use attenuate_agent.Prelude.{
  ℕ, zero, suc, List, [], ◌∷◌, ◌++◌, Text, Result, ok, err, panic, ok-injective, ◌≡◌, refl, sym, ap,
  ◌∙◌, subst, ◌⊎◌, inl, inr, arith,
}
use mathlib.Core.List.{append_assoc, append-nil}
use attenuate_agent.Prelude.Runs.{continue, continue-cases}
use attenuate_agent.External.{Uuid, System}
use attenuate_agent.Manifest.{TaskManifest}
use attenuate_agent.Capability.Data.{RootCapability, CapabilityError}
use attenuate_agent.Audit.{AuditEvent, root_minted}
use attenuate_agent.Tools.{ToolCall, Crates}
use attenuate_agent.Agent.Mode.{AuthzMode}
use attenuate_agent.Agent.Feedback.{StepDecision, StepOutcome}
use attenuate_agent.Agent.Orchestrator.{Orchestrator, State, append_entry, start, new, step}
use attenuate_agent.Agent.Principal.{
  Principal, Session, finish_call, run_calls, next_calls, turn, run_principal,
}
use attenuate_agent.Agent.AuditTrail.{step_in-keeps}
use attenuate_agent.Agent.Trail.{Trail, Recorded, events, step-Recorded}

-- What is recorded of a list of outcomes: for each, in their order, what is recorded of its decision.
pub data Trails (task_id : Uuid) (mode : AuthzMode)
    : List StepOutcome → List AuditEvent → Type 0 where
  nothing : Trails task_id mode [] []
  then :
      {outcomes : List StepOutcome} {before added : List AuditEvent} {call : ToolCall}
      {decision : StepDecision}
      → Trails task_id mode outcomes before
      → Trail task_id call mode decision added
      → Trails task_id mode
          (outcomes ++ (record { call = call; decision = decision } ∷ []))
          (before ++ added)

abbrev SameTask : Uuid → AuthzMode → Orchestrator → Type 0
SameTask task_id mode o = (o.mode ≡ mode) × (o.task_id ≡ task_id)

retask :
    (task_id : Uuid) (mode : AuthzMode) (o : Orchestrator) {call : ToolCall}
    {decision : StepDecision} {added : List AuditEvent}
    → SameTask task_id mode o
    → Trail o.task_id call o.mode decision added
    → Trail task_id call mode decision added
retask task_id mode o {call} {decision} {added} (m, t) h =
    subst (λ n. Trail task_id call n decision added) m
      (subst (λ u. Trail u call o.mode decision added) t h)

module _ (sys : System) (crates : Crates) (task_id : Uuid) (mode : AuthzMode) where
  step-SameTask :
      (call : ToolCall) (s : State sys crates)
      → SameTask task_id mode s.0
      → SameTask task_id mode (step sys crates call s).1.0
  unfolding step
  step-SameTask call s h =
      step_in-keeps sys crates (SameTask task_id mode) (λ o event id t k. k) s.0.mode call s h

  module _ (pr : Principal) (base : List AuditEvent) where
    -- The log holds `base` and then what is recorded of the outcomes so far.
    pub record Accounted (s : Session sys crates pr) : Type 0 where
      pub same : SameTask task_id mode s.state.0
      pub added : List AuditEvent
      pub trails : Trails task_id mode s.outcomes added
      pub logged : events s.state.0 ≡ base ++ added

    abbrev Ends : Result Text (Unit {0}) × Session sys crates pr → Type 0
    Ends (r, s) = (r ≡ panic) ⊎ Accounted s

    finish_call-Ends :
        (call : ToolCall) (id : Text) (r : Result Text StepOutcome × State sys crates)
        (s : Session sys crates pr)
        → Accounted s
        → SameTask task_id mode r.1.0
        → Recorded sys crates s.state.0.mode call s.state.0 r
        → (rest : Session sys crates pr → Result Text (Unit {0}) × Session sys crates pr)
        → ((t : Session sys crates pr) → Accounted t → Ends (rest t))
        → Ends (let (q, t) = finish_call sys crates pr id r s in continue q (λ done. rest) t)
    unfolding finish_call
    finish_call-Ends call id (ok outcome, state) s a same (inl p) rest f = absurd (ground arith)
    finish_call-Ends call id (ok outcome, state) s a same (inr (decision, more, e, h, k)) rest f =
        f _ (record {
          same = same;
          added = a.added ++ more;
          trails =
              subst
                (λ (o : StepOutcome).
                  Trails task_id mode (s.outcomes ++ (o ∷ [])) (a.added ++ more))
                (sym (ok-injective e)) (then a.trails (retask task_id mode s.state.0 a.same k));
          logged = h ∙ (ap (λ es. es ++ more) a.logged ∙ append_assoc base a.added more);
        })
    finish_call-Ends call id (err x, state) s a same (inl p) rest f = absurd (ground arith)
    finish_call-Ends call id (err x, state) s a same (inr (decision, more, e, h, t)) rest f =
        absurd (ground arith)
    finish_call-Ends call id (panic, state) s a same r rest f = inl refl

    run_calls-Ends :
        (calls : List (ToolCall × Text)) (s : Session sys crates pr)
        → Accounted s
        → Ends (run_calls sys crates pr calls s)
    unfolding run_calls
    run_calls-Ends [] s a = inr a
    run_calls-Ends ((call, id) ∷ calls) s a =
        finish_call-Ends call id (step sys crates call s.state) s a
          (step-SameTask call s.state a.same) (step-Recorded sys crates call s.state.0 s.state.1)
          (run_calls sys crates pr calls) (λ t h. run_calls-Ends calls t h)

    turn-Ends :
        (rest : Session sys crates pr → Result Text (Unit {0}) × Session sys crates pr)
        (calls : List (ToolCall × Text)) (s : Session sys crates pr)
        → ((t : Session sys crates pr) → Accounted t → Ends (rest t))
        → Accounted s
        → Ends (turn sys crates pr rest calls s)
    unfolding turn
    turn-Ends rest [] s f a = inr a
    turn-Ends rest (call ∷ calls) s f a =
        after (run_calls sys crates pr (call ∷ calls) s) (run_calls-Ends (call ∷ calls) s a)
      where
        after :
            (q : Result Text (Unit {0}) × Session sys crates pr)
            → Ends q
            → Ends (continue q.0 (λ done. rest) q.1)
        after (ok done, t) (inl e) = absurd (ground arith)
        after (ok done, t) (inr h) = f t h
        after (err x, t) (inl e) = absurd (ground arith)
        after (err x, t) (inr h) = inr h
        after (panic, t) h = inl refl

    run_principal-Ends :
        (turns : ℕ) (s : Session sys crates pr)
        → Accounted s
        → Ends (run_principal sys crates pr turns s)
    unfolding run_principal next_calls
    run_principal-Ends zero s a = inr a
    run_principal-Ends (suc turns) s a =
        let (r, p) = pr.next_tool_calls s.principal in
        let s' : Session sys crates pr = record s { principal = p } in
        let a' : Accounted s' = record {
          same = a.same;
          added = a.added;
          trails = a.trails;
          logged = a.logged;
        } in
        continue-cases Ends r (turn sys crates pr (run_principal sys crates pr turns)) s'
          (λ calls. turn-Ends _ calls s' (λ t h. run_principal-Ends turns t h) a') (λ e. inr a')
          (inl refl)

module _ (sys : System) (crates : Crates) where
  -- A run of any principal, in either mode, panics, or has behind the entries that were there recorded
  -- the trail of each outcome that it collected, in their order, and nothing else, also where the
  -- principal fails: no call is answered without its record, and no record is without its call.
  pub run_principal-Accounted :
      (pr : Principal) (turns : ℕ) (s : Session sys crates pr)
      → s.outcomes ≡ []
      → ((run_principal sys crates pr turns s).0 ≡ panic)
        ⊎ ((added : List AuditEvent) × Trails s.state.0.task_id s.state.0.mode
              (run_principal sys crates pr turns s).1.outcomes
              added
            × (events (run_principal sys crates pr turns s).1.state.0 ≡ events s.state.0 ++ added))
  run_principal-Accounted pr turns s fresh =
      elim (run_principal-Ends sys crates s.state.0.task_id s.state.0.mode pr (events s.state.0)
        turns s
        (record {
          same = (refl, refl);
          added = [];
          trails = subst (λ os. Trails s.state.0.task_id s.state.0.mode os []) (sym fresh) nothing;
          logged = sym (append-nil (events s.state.0));
        })) [ inl p ↦ inl p | inr a ↦ inr (a.added, a.trails, a.logged) ]

  start-events :
      (manifest : TaskManifest) (mode : AuthzMode) (r : Result CapabilityError RootCapability)
      (w : sys.World) {o : Orchestrator}
      → (start sys crates manifest mode r w).0 ≡ ok o
      → events o ≡ root_minted manifest.task_id ∷ []
  unfolding start append_entry
  start-events manifest mode (err e) w h = absurd (ground arith)
  start-events manifest mode panic w h = absurd (ground arith)
  start-events manifest mode (ok root) w h =
      subst (λ (x : Orchestrator). events x ≡ root_minted manifest.task_id ∷ []) (ok-injective h)
        refl

  -- A new orchestrator has recorded that its root was minted.
  pub new-events :
      (keypair : crates.biscuit.KeyPair) (manifest : TaskManifest) (mode : AuthzMode)
      (w : sys.World) {o : Orchestrator}
      → (new sys crates keypair manifest mode w).0 ≡ ok o
      → events o ≡ root_minted manifest.task_id ∷ []
  unfolding new
  new-events keypair manifest mode w h = start-events manifest mode _ (sys.now w).1 h
