-- ===== src/Agent/AuditTrail.antt =====
-- The audit log of an orchestrator is a chain that only grows, in both modes (agent/src/lib.rs).
use attenuate_agent.Prelude.{ℕ, zero, suc, some, List, [], ◌∷◌, Text, Result, ok, err, panic}
use attenuate_agent.Prelude.Runs.{continue-keeps}
use attenuate_agent.External.{Uuid, DateTime, System}
use attenuate_agent.Capability.Data.{ChildCapability, CapabilityError, RequestBinding}
use attenuate_agent.Capability.Token.{attenuate_root}
use attenuate_agent.Audit.{AuditEntry, AuditEvent, capability_attenuated, hash_entry_fields}
use attenuate_agent.Tools
use attenuate_agent.Tools.{
  ToolCall, ToolOutput, ToolError, Crates, to_request, request_binding_for, execute, dispatch,
}
use attenuate_agent.Agent.Mode.{AuthzMode, enforced, bypassed}
use attenuate_agent.Agent.Feedback.{StepOutcome}
use attenuate_agent.Agent.Orchestrator.{
  Orchestrator, State, append_entry, record_lossy, finish_enforced, finish_bypassed, child_request,
  dispatch_child, attenuate_and_dispatch, step_enforced, step_bypassed, step_in, step,
}
use attenuate_agent.Agent.Principal.{
  Principal, Session, finish_call, run_calls, next_calls, turn, run_principal,
}

module _ (sys : System) (crates : Crates) where
  -- The entry that `record` makes of an event.
  abbrev pub entry_of : Orchestrator → AuditEvent → Uuid → DateTime → AuditEntry
  entry_of o event id t = record {
    id = id;
    timestamp = t;
    event = event;
    previous_hash = o.previous_hash;
    entry_hash = hash_entry_fields crates.chrono crates.hash id t event o.previous_hash;
  }

  -- What every new entry keeps, a run keeps, in either mode: an orchestrator changes in no other way.
  module _ (Q : Orchestrator → Type 0)
      (keep : (o : Orchestrator) (event : AuditEvent) (id : Uuid) (t : DateTime)
        → Q o
        → Q (append_entry (entry_of o event id t) o)) where
    record_lossy-keeps :
        (event : AuditEvent) (s : State sys crates) → Q s.0 → Q (record_lossy sys crates event s).0
    unfolding record_lossy
    record_lossy-keeps event s h = keep s.0 event _ _ h

    finish_enforced-keeps :
        (call : ToolCall) (r : Result ToolError ToolOutput) (s : State sys crates)
        → Q s.0
        → Q (finish_enforced sys crates call r s).1.0
    unfolding finish_enforced
    finish_enforced-keeps call (ok output) s h = keep s.0 _ _ _ h
    finish_enforced-keeps call (err (Tools.denied reason)) s h = keep s.0 _ _ _ h
    finish_enforced-keeps call (err (Tools.verification e)) s h = keep s.0 _ _ _ h
    finish_enforced-keeps call (err (Tools.serialize e)) s h = keep s.0 _ _ _ h
    finish_enforced-keeps call (err (Tools.io e)) s h = keep s.0 _ _ _ h
    finish_enforced-keeps call panic s h = h

    finish_bypassed-keeps :
        (call : ToolCall) (r : Result ToolError ToolOutput) (s : State sys crates)
        → Q s.0
        → Q (finish_bypassed sys crates call r s).1.0
    unfolding finish_bypassed
    finish_bypassed-keeps call (ok output) s h = keep s.0 _ _ _ h
    finish_bypassed-keeps call (err e) s h = keep s.0 _ _ _ h
    finish_bypassed-keeps call panic s h = h

    dispatch_child-keeps :
        (call : ToolCall) (bound : Uuid) (r : Result CapabilityError ChildCapability)
        (s : State sys crates)
        → Q s.0
        → Q (dispatch_child sys crates call bound r s).1.0
    unfolding dispatch_child
    dispatch_child-keeps call bound (ok child) s h =
        let s₁ = record_lossy sys crates (capability_attenuated s.0.task_id) s in
        let (r, w) = dispatch sys crates child call (some bound) s₁.1 in
        finish_enforced-keeps call r (s₁.0, w) (keep s.0 _ _ _ h)
    dispatch_child-keeps call bound (err e) s h = keep s.0 _ _ _ h
    dispatch_child-keeps call bound panic s h = h

    attenuate_and_dispatch-keeps :
        (call : ToolCall) (now : ℕ) (bound : Uuid) (r : Result Text RequestBinding)
        (s : State sys crates)
        → Q s.0
        → Q (attenuate_and_dispatch sys crates call now bound r s).1.0
    unfolding attenuate_and_dispatch
    attenuate_and_dispatch-keeps call now bound (ok binding) s h =
        dispatch_child-keeps call bound
          (attenuate_root (sys.files s.1) crates.chrono crates.uuid crates.biscuit s.0.root
            (child_request s.0.root binding) now)
          s h
    attenuate_and_dispatch-keeps call now bound (err e) s h = keep s.0 _ _ _ h
    attenuate_and_dispatch-keeps call now bound panic s h = h

    pub step_in-keeps :
        (mode : AuthzMode) (call : ToolCall) (s : State sys crates)
        → Q s.0
        → Q (step_in sys crates mode call s).1.0
    unfolding step_in step_enforced step_bypassed
    step_in-keeps enforced call (o, w) h =
        let (now, v) = sys.now w in
        let (bound, u) = sys.new_v4 v in
        attenuate_and_dispatch-keeps call now bound
          (request_binding_for crates.hash crates.to_json (to_request call) bound) (o, u) h
    step_in-keeps bypassed call (o, w) h =
        let (r, v) = execute sys call w in finish_bypassed-keeps call r (o, v) h

    module _ (pr : Principal) where
      finish_call-keeps :
          (id : Text) (r : Result Text StepOutcome × State sys crates) (s : Session sys crates pr)
          → Q r.1.0
          → Q (finish_call sys crates pr id r s).1.state.0
      unfolding finish_call
      finish_call-keeps id (ok outcome, t) s h = h
      finish_call-keeps id (err e, t) s h = h
      finish_call-keeps id (panic, t) s h = h

      run_calls-keeps :
          (calls : List (ToolCall × Text)) (s : Session sys crates pr)
          → Q s.state.0
          → Q (run_calls sys crates pr calls s).1.state.0
      unfolding run_calls step
      run_calls-keeps [] s h = h
      run_calls-keeps ((call, id) ∷ calls) s h =
          let r = step sys crates call s.state in
          let (q, t) = finish_call sys crates pr id r s in
          continue-keeps (λ (u : Session sys crates pr). Q u.state.0) q
            (λ _. run_calls sys crates pr calls) t
            (finish_call-keeps id r s (step_in-keeps s.state.0.mode call s.state h))
            (λ _ u k. run_calls-keeps calls u k)

      turn-keeps :
          (rest : Session sys crates pr → Result Text Unit × Session sys crates pr)
          (calls : List (ToolCall × Text)) (s : Session sys crates pr)
          → ((t : Session sys crates pr) → Q t.state.0 → Q (rest t).1.state.0)
          → Q s.state.0
          → Q (turn sys crates pr rest calls s).1.state.0
      unfolding turn
      turn-keeps rest [] s k h = h
      turn-keeps rest (call ∷ calls) s k h =
          let (q, t) = run_calls sys crates pr (call ∷ calls) s in
          continue-keeps (λ (u : Session sys crates pr). Q u.state.0) q (λ _. rest) t
            (run_calls-keeps (call ∷ calls) s h) (λ _ u i. k u i)

      pub run_principal-keeps :
          (turns : ℕ) (s : Session sys crates pr)
          → Q s.state.0
          → Q (run_principal sys crates pr turns s).1.state.0
      unfolding run_principal next_calls
      run_principal-keeps zero s h = h
      run_principal-keeps (suc turns) s h =
          let (r, t) = next_calls sys crates pr s in
          continue-keeps (λ (u : Session sys crates pr). Q u.state.0) r
            (turn sys crates pr (run_principal sys crates pr turns)) t h
            (λ calls u k. turn-keeps _ calls u (λ v i. run_principal-keeps turns v i) k)
