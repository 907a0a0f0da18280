-- ===== src/Agent/Replay.antt =====
-- A replayed script of tool calls: `run` and `ScriptedPrincipal` of agent/src/lib.rs.
use attenuate_agent.Prelude.{
  ℕ, suc, ◌+◌, List, [], ◌∷◌, ◌++◌, map, In, Text, text, Result, ok, err, panic, ok-injective,
  length, ◌≡◌, refl, sym, ap, ◌∙◌, subst, ◌⊎◌, inl, inr, arith,
}
use mathlib.Core.List.{append_assoc, append-nil}
use attenuate_agent.Prelude.Decimal.{decimal}
use attenuate_agent.External.{Uuid, System}
use attenuate_agent.Capability.Data.{RequestBinding, ChildCapability, CapabilityError}
use attenuate_agent.Tools
use attenuate_agent.Tools.{ToolCall, ToolOutput, ToolError, Crates}
use attenuate_agent.Agent.Feedback.{StepOutcome}
use attenuate_agent.Agent.Mode.{AuthzMode, enforced, bypassed}
use attenuate_agent.Agent.Orchestrator.{
  State, finish_bypassed, finish_enforced, dispatch_child, attenuate_and_dispatch, step_in, step,
}
use attenuate_agent.Agent.Principal.{
  scripted, Session, finish_call, run_calls, next_calls, turn, scripted_batch, run_principal, run,
  expect_outcomes, scripted_new, turn_budget,
}

-- The result is an outcome of that call, or a panic; it is never an error.
abbrev pub Answers : ToolCall → Result Text StepOutcome → Type 0
Answers call r = ((o : StepOutcome) × (r ≡ ok o) × (o.call ≡ call)) ⊎ (r ≡ panic)

module _ (sys : System) (crates : Crates) where
  finish_enforced-Answers :
      (call : ToolCall) (r : Result ToolError ToolOutput) (s : State sys crates)
      → Answers call (finish_enforced sys crates call r s).0
  unfolding finish_enforced
  finish_enforced-Answers call (ok output) s = inl (_, refl, refl)
  finish_enforced-Answers call (err (Tools.denied reason)) s = inl (_, refl, refl)
  finish_enforced-Answers call (err (Tools.verification e)) s = inl (_, refl, refl)
  finish_enforced-Answers call (err (Tools.serialize e)) s = inl (_, refl, refl)
  finish_enforced-Answers call (err (Tools.io e)) s = inl (_, refl, refl)
  finish_enforced-Answers call panic s = inr refl

  finish_bypassed-Answers :
      (call : ToolCall) (r : Result ToolError ToolOutput) (s : State sys crates)
      → Answers call (finish_bypassed sys crates call r s).0
  unfolding finish_bypassed
  finish_bypassed-Answers call (ok output) s = inl (_, refl, refl)
  finish_bypassed-Answers call (err e) s = inl (_, refl, refl)
  finish_bypassed-Answers call panic s = inr refl

  dispatch_child-Answers :
      (call : ToolCall) (nonce : Uuid) (r : Result CapabilityError ChildCapability)
      (s : State sys crates)
      → Answers call (dispatch_child sys crates call nonce r s).0
  unfolding dispatch_child
  dispatch_child-Answers call nonce (ok child) s = finish_enforced-Answers call _ _
  dispatch_child-Answers call nonce (err e) s = inl (_, refl, refl)
  dispatch_child-Answers call nonce panic s = inr refl

  attenuate_and_dispatch-Answers :
      (call : ToolCall) (now : ℕ) (nonce : Uuid) (r : Result Text RequestBinding)
      (s : State sys crates)
      → Answers call (attenuate_and_dispatch sys crates call now nonce r s).0
  unfolding attenuate_and_dispatch
  attenuate_and_dispatch-Answers call now nonce (ok binding) s =
      dispatch_child-Answers call nonce _ s
  attenuate_and_dispatch-Answers call now nonce (err e) s = inl (_, refl, refl)
  attenuate_and_dispatch-Answers call now nonce panic s = inr refl

  pub step_in-Answers :
      (mode : AuthzMode) (call : ToolCall) (s : State sys crates)
      → Answers call (step_in sys crates mode call s).0
  unfolding step_in
  step_in-Answers enforced call (o, w) = attenuate_and_dispatch-Answers call _ _ _ _
  step_in-Answers bypassed call (o, w) = finish_bypassed-Answers call _ _

  -- Some call of the script panics in some state.
  abbrev pub Panics : List ToolCall → Type 0
  Panics calls =
      (call : ToolCall) × (s : State sys crates) × In call calls
      × ((step sys crates call s).0 ≡ panic)

  abbrev session_of :
      List ToolCall → ℕ → State sys crates → List StepOutcome → Session sys crates scripted
  session_of calls id s outcomes = record {
    state = s;
    principal = record { pending = calls; next_id = id };
    outcomes = outcomes;
  }

  -- A turn with one call goes on with the outcome added, or the call panics.
  one_turn :
      (rest : Session sys crates scripted → Result Text (Unit {0}) × Session sys crates scripted)
      (call : ToolCall) (call_id : Text) (calls : List ToolCall) (id : ℕ) (s : State sys crates)
      (before : List StepOutcome)
      → ((o : StepOutcome) × (turn sys crates scripted rest
              ((call, call_id) ∷ [])
              (session_of calls id s before)
            ≡ rest (session_of calls id (step sys crates call s).1 (before ++ (o ∷ []))))
          × (o.call ≡ call))
        ⊎ (((step sys crates call s).0 ≡ panic)
            × ((turn sys crates scripted rest
                  ((call, call_id) ∷ [])
                  (session_of calls id s before)).0
                ≡ panic))
  unfolding turn run_calls finish_call step
  one_turn rest call call_id calls id s before = elim (step_in-Answers s.0.mode call s) [
    | inl (o, e, q) ↦ inl (o, rw e, q)
    | inr e ↦ inr (e, rw e refl)
  ]

  -- The loop ends without an error, and has added one outcome for each call.
  abbrev Replayed :
      List ToolCall
      → List StepOutcome
      → Result Text (Unit {0}) × Session sys crates scripted
      → Type 0
  Replayed calls before (r, t) =
      (r ≡ ok tt)
      × (added : List StepOutcome) × (t.outcomes ≡ before ++ added)
      × (map (λ (o : StepOutcome). o.call) added ≡ calls)

  -- Some call panics, and with it the loop.
  abbrev Stops : List ToolCall → Result Text (Unit {0}) × Session sys crates scripted → Type 0
  Stops calls (r, t) = Panics calls × (r ≡ panic)

  run_principal-Replayed :
      (calls : List ToolCall) (id : ℕ) (s : State sys crates) (before : List StepOutcome)
      → Replayed calls before
          (run_principal sys crates scripted (suc (length calls)) (session_of calls id s before))
        ⊎ Stops calls
            (run_principal sys crates scripted (suc (length calls)) (session_of calls id s before))
  unfolding run_principal next_calls scripted_batch turn
  run_principal-Replayed [] id s before = inl (refl, [], sym (append-nil before), refl)
  run_principal-Replayed (call ∷ calls) id s before =
      elim (one_turn (run_principal sys crates scripted (suc (length calls))) call
        (text "scripted-" ++ decimal id) calls (id + 1) s before) [
          | inr (e, p) ↦ inr ((call, s, inl refl, e), p)
          | inl (o, e, q) ↦
              elim (run_principal-Replayed calls (id + 1) (step sys crates call s).1
                (before ++ (o ∷ []))) [
                  | inr ((c, t, i, p), stop) ↦ inr ((c, t, inr i, p), rw e stop)
                  | inl (r, added, a, m) ↦
                      inl
                        (rw e (r, o ∷ added, a ∙ append_assoc before (o ∷ []) added, cong_cons q m))
                ]
        ]
    where
      cong_cons : {c d : ToolCall} {cs ds : List ToolCall} → c ≡ d → cs ≡ ds → c ∷ cs ≡ d ∷ ds
      cong_cons h k = cc

  expect_outcomes-ok :
      (r : Result Text (Unit {0}) × Session sys crates scripted)
      → r.0 ≡ ok tt
      → (expect_outcomes sys crates r).0 ≡ ok r.1.outcomes
  unfolding expect_outcomes
  expect_outcomes-ok (r, t) h = rw h refl

  expect_outcomes-panic :
      (r : Result Text (Unit {0}) × Session sys crates scripted)
      → r.0 ≡ panic
      → (expect_outcomes sys crates r).0 ≡ panic
  unfolding expect_outcomes
  expect_outcomes-panic (r, t) h = rw h refl

  -- Every call is answered, or some call panics and `run` with it.
  run-Answered :
      (calls : List ToolCall) (s : State sys crates)
      → ((outcomes : List StepOutcome) × ((run sys crates calls s).0 ≡ ok outcomes)
          × (map (λ (o : StepOutcome). o.call) outcomes ≡ calls))
        ⊎ (Panics calls × ((run sys crates calls s).0 ≡ panic))
  unfolding run scripted_new turn_budget
  run-Answered calls s =
      let turns : suc (length calls) ≡ length calls + 1 = omega arith in
      elim (subst
        (λ n.
          Replayed calls [] (run_principal sys crates scripted n (session_of calls 0 s []))
          ⊎ Stops calls (run_principal sys crates scripted n (session_of calls 0 s [])))
        turns (run_principal-Replayed calls 0 s [])) [
          | inr (p, e) ↦ inr (p, expect_outcomes-panic _ e)
          | inl (r, added, a, m) ↦ inl (added, expect_outcomes-ok _ r ∙ ap ok a, m)
        ]

  -- The outcomes of a run that returns are of the calls of its script.
  pub run-calls :
      (calls : List ToolCall) (s : State sys crates) (outcomes : List StepOutcome)
      → (run sys crates calls s).0 ≡ ok outcomes
      → map (λ (o : StepOutcome). o.call) outcomes ≡ calls
  run-calls calls s outcomes h = elim (run-Answered calls s) [
    | inl (os, e, m) ↦ ap (map (λ (o : StepOutcome). o.call)) (ok-injective (sym h ∙ e)) ∙ m
    | inr (p, e) ↦ absurd (ground arith)
  ]

  -- `run` answers every call of the script, in its order, with one outcome each, or some call of it
  -- panics in some state: it never fails with an error, its `expect` never fires on one, and the
  -- turns that it allows itself are enough.
  pub run-Answers :
      (calls : List ToolCall) (s : State sys crates)
      → ((outcomes : List StepOutcome) × ((run sys crates calls s).0 ≡ ok outcomes)
          × (map (λ (o : StepOutcome). o.call) outcomes ≡ calls))
        ⊎ Panics calls
  run-Answers calls s = elim (run-Answered calls s) [ inl a ↦ inl a | inr (p, e) ↦ inr p ]
