-- ===== src/Agent/Confinement.antt =====
-- Complete mediation: whatever the principal asks, an enforcing orchestrator acts on the machine only
-- within the permissions of its root capability (agent/src/lib.rs).
use attenuate_agent.Prelude.{
  ℕ, zero, suc, Option, some, List, [], ◌∷◌, Text, Result, ok, err, panic, ◌≡◌, refl, sym, subst,
  inl, inr, ◌∙◌,
}
use attenuate_agent.External.{Uuid, System}
use attenuate_agent.Capability.Data.{
  PermissionSet, RootCapability, ChildCapability, CapabilityError, RequestBinding,
}
use attenuate_agent.Capability.Token.{attenuate_root}
use attenuate_agent.Capability.Derivation.{Attenuated-IsNarrowed, attenuate_root-Attenuated}
use attenuate_agent.Pdp.{decide, allow}
use attenuate_agent.Pdp.Decide.{decide_mono}
use attenuate_agent.Audit.{AuditEvent, capability_attenuated}
use attenuate_agent.Tools
use attenuate_agent.Tools.{
  ToolCall, ToolOutput, ToolError, Crates, to_request, request_binding_for, execute, dispatch,
}
use attenuate_agent.Tools.Authorize.{clocked, dispatch-Mediated}
use attenuate_agent.Agent.Mode.{AuthzMode, enforced, bypassed}
use attenuate_agent.Agent.Feedback.{StepOutcome}
use attenuate_agent.Agent.Orchestrator.{
  Orchestrator, State, record_lossy, finish_enforced, child_request, dispatch_child,
  attenuate_and_dispatch, step_enforced, step_in, step,
}
use attenuate_agent.Agent.Principal.{
  Principal, Session, finish_call, run_calls, next_calls, turn, run_principal,
}
use attenuate_agent.Prelude.Runs.{continue-keeps}

module _ (sys : System) (crates : Crates) where
  -- Ways from one state of the machine to another: reading the clock, drawing a random id, and
  -- executing a call that the permissions allow in the state of the files at that moment.
  pub data Confined (p : PermissionSet) (w : sys.World) : sys.World → Type 0 where
    here : Confined p w w
    clock : {v : sys.World} → Confined p w v → Confined p w (sys.now v).1
    random : {v : sys.World} → Confined p w v → Confined p w (sys.new_v4 v).1
    acts :
        {v : sys.World} (call : ToolCall)
        → Confined p w v
        → decide (sys.files v) p (to_request call) ≡ allow
        → Confined p w (execute sys call v).1

  -- The parts of the orchestrator that no operation of it changes.
  abbrev pub SameSetup : Orchestrator → Orchestrator → Type 0
  SameSetup o o' = (o'.mode ≡ o.mode) × (o'.task_id ≡ o.task_id) × (o'.root ≡ o.root)

  -- The state `s'` is reached within `p` from the machine `w`, with the setup of `o` kept.
  abbrev Reached : PermissionSet → Orchestrator → sys.World → State sys crates → Type 0
  Reached p o w s' = Confined p w s'.1 × SameSetup o s'.0

  record_lossy-Reached :
      (p : PermissionSet) (o : Orchestrator) (w : sys.World) (event : AuditEvent)
      (s : State sys crates)
      → Reached p o w s
      → Reached p o w (record_lossy sys crates event s)
  unfolding record_lossy
  record_lossy-Reached p o w event (o', v) (c, same) = (random (clock c), same)

  finish-Reached :
      (p : PermissionSet) (o : Orchestrator) (w : sys.World) (call : ToolCall)
      (r : Result ToolError ToolOutput) (s : State sys crates)
      → Reached p o w s
      → Reached p o w (finish_enforced sys crates call r s).1
  unfolding finish_enforced
  finish-Reached p o w call (ok output) s h = (random (clock h.0), h.1)
  finish-Reached p o w call (err (Tools.denied reason)) s h = (random (clock h.0), h.1)
  finish-Reached p o w call (err (Tools.verification e)) s h = (random (clock h.0), h.1)
  finish-Reached p o w call (err (Tools.serialize e)) s h = (random (clock h.0), h.1)
  finish-Reached p o w call (err (Tools.io e)) s h = (random (clock h.0), h.1)
  finish-Reached p o w call panic s h = h

  -- A child that narrows `p` is dispatched within `p`.
  dispatch-Confined :
      (p : PermissionSet) (w v : sys.World) (call : ToolCall) (child : ChildCapability)
      (bound : Option Uuid)
      → ((at : sys.World)
          → decide (sys.files at) child.permissions (to_request call) ≡ allow
          → decide (sys.files at) p (to_request call) ≡ allow)
      → Confined p w v
      → Confined p w (dispatch sys crates child call bound v).1
  dispatch-Confined p w v call child bound within c =
      elim (dispatch-Mediated sys crates child call bound v) [
        | inl (a, e) ↦
            subst (λ (x : Result ToolError ToolOutput × sys.World). Confined p w x.1) (sym e)
              (acts call (clock c) (within (clocked sys crates v) a.allowed))
        | inr (refused, (r, u, e, where_to, n)) ↦
            subst (λ (x : Result ToolError ToolOutput × sys.World). Confined p w x.1) (sym e)
              (elim where_to [
                | inl same ↦ subst (λ x. Confined p w x) (sym same) c
                | inr later ↦ subst (λ x. Confined p w x) (sym later) (clock c)
              ])
      ]

  dispatch_child-Reached :
      (p : PermissionSet) (o : Orchestrator) (w : sys.World) (call : ToolCall) (nonce : Uuid)
      (r : Result CapabilityError ChildCapability) (s : State sys crates)
      → ((child : ChildCapability) (at : sys.World)
          → r ≡ ok child
          → decide (sys.files at) child.permissions (to_request call) ≡ allow
          → decide (sys.files at) p (to_request call) ≡ allow)
      → Reached p o w s
      → Reached p o w (dispatch_child sys crates call nonce r s).1
  unfolding dispatch_child
  dispatch_child-Reached p o w call nonce (ok child) s within h =
      let s₁ = record_lossy sys crates (capability_attenuated s.0.task_id) s in
      let h₁ = record_lossy-Reached p o w (capability_attenuated s.0.task_id) s h in
      finish-Reached p o w call (dispatch sys crates child call (some nonce) s₁.1).0
        (s₁.0, (dispatch sys crates child call (some nonce) s₁.1).1)
        (
          dispatch-Confined p w s₁.1 call child (some nonce) (λ at d. within child at refl d) h₁.0,
          h₁.1,
        )
  dispatch_child-Reached p o w call nonce (err e) s within h = (random (clock h.0), h.1)
  dispatch_child-Reached p o w call nonce panic s within h = h

  attenuate_and_dispatch-Reached :
      (o : Orchestrator) (w : sys.World) (call : ToolCall) (now : ℕ) (nonce : Uuid)
      (r : Result Text RequestBinding) (s : State sys crates)
      → s.0.root ≡ o.root
      → Reached o.root.permissions o w s
      → Reached o.root.permissions o w (attenuate_and_dispatch sys crates call now nonce r s).1
  unfolding attenuate_and_dispatch
  attenuate_and_dispatch-Reached o w call now nonce (ok binding) s same h =
      dispatch_child-Reached o.root.permissions o w call nonce
        (attenuate_root (sys.files s.1) crates.chrono crates.uuid crates.biscuit s.0.root
          (child_request s.0.root binding) now)
        s
        (λ child at e d.
          let a =
            attenuate_root-Attenuated (sys.files s.1) crates.chrono crates.uuid crates.biscuit
              s.0.root (child_request s.0.root binding) now e in
          let n =
            (Attenuated-IsNarrowed (sys.files s.1) crates.chrono crates.uuid crates.biscuit
              a).rights in
          subst
            (λ (t : RootCapability). decide (sys.files at) t.permissions (to_request call) ≡ allow)
            same
            (decide_mono (sys.files at) child.permissions s.0.root.permissions (to_request call) n
              d))
        h
  attenuate_and_dispatch-Reached o w call now nonce (err e) s same h = (random (clock h.0), h.1)
  attenuate_and_dispatch-Reached o w call now nonce panic s same h = h

  step_in-Reached :
      (o : Orchestrator) (w : sys.World) (mode : AuthzMode) (call : ToolCall) (s : State sys crates)
      → mode ≡ enforced
      → Reached o.root.permissions o w s
      → Reached o.root.permissions o w (step_in sys crates mode call s).1
  unfolding step_in step_enforced
  step_in-Reached o w enforced call (o', v) on (c, same) =
      attenuate_and_dispatch-Reached o w call (sys.now v).0 (sys.new_v4 (sys.now v).1).0
        (request_binding_for crates.hash crates.to_json (to_request call)
          (sys.new_v4 (sys.now v).1).0)
        (o', (sys.new_v4 (sys.now v).1).1) same.2 (random (clock c), same)
  step_in-Reached o w bypassed call s off h = cc

  module _ (pr : Principal) (o : Orchestrator) (on : o.mode ≡ enforced) (w : sys.World) where
    -- The session is where `o` may have led from the machine `w`.
    abbrev InBounds : Session sys crates pr → Type 0
    InBounds s = Reached o.root.permissions o w s.state

    step-InBounds :
        (call : ToolCall) (s : Session sys crates pr)
        → InBounds s
        → Reached o.root.permissions o w (step sys crates call s.state).1
    unfolding step
    step-InBounds call s h = step_in-Reached o w s.state.0.mode call s.state (h.1.0 ∙ on) h

    finish_call-InBounds :
        (id : Text) (r : Result Text StepOutcome × State sys crates) (s : Session sys crates pr)
        → Reached o.root.permissions o w r.1
        → InBounds (finish_call sys crates pr id r s).1
    unfolding finish_call
    finish_call-InBounds id (ok outcome, t) s h = h
    finish_call-InBounds id (err e, t) s h = h
    finish_call-InBounds id (panic, t) s h = h

    run_calls-InBounds :
        (calls : List (ToolCall × Text)) (s : Session sys crates pr)
        → InBounds s
        → InBounds (run_calls sys crates pr calls s).1
    unfolding run_calls
    run_calls-InBounds [] s h = h
    run_calls-InBounds ((call, id) ∷ calls) s h =
        let r = step sys crates call s.state in
        let (q, t) = finish_call sys crates pr id r s in
        continue-keeps InBounds q (λ _. run_calls sys crates pr calls) t
          (finish_call-InBounds id r s (step-InBounds call s h))
          (λ _ u k. run_calls-InBounds calls u k)

    turn-InBounds :
        (rest : Session sys crates pr → Result Text Unit × Session sys crates pr)
        (calls : List (ToolCall × Text)) (s : Session sys crates pr)
        → ((t : Session sys crates pr) → InBounds t → InBounds (rest t).1)
        → InBounds s
        → InBounds (turn sys crates pr rest calls s).1
    unfolding turn
    turn-InBounds rest [] s k h = h
    turn-InBounds rest (call ∷ calls) s k h =
        let (q, t) = run_calls sys crates pr (call ∷ calls) s in
        continue-keeps InBounds q (λ _. rest) t (run_calls-InBounds (call ∷ calls) s h)
          (λ _ u i. k u i)

    run_principal-InBounds :
        (turns : ℕ) (s : Session sys crates pr)
        → InBounds s
        → InBounds (run_principal sys crates pr turns s).1
    unfolding run_principal next_calls
    run_principal-InBounds zero s h = h
    run_principal-InBounds (suc turns) s h =
        let (r, t) = next_calls sys crates pr s in
        continue-keeps InBounds r (turn sys crates pr (run_principal sys crates pr turns)) t h
          (λ calls u k. turn-InBounds _ calls u (λ v i. run_principal-InBounds turns v i) k)

  -- Whatever an untrusted principal asks for, in any number of turns, an enforcing orchestrator takes
  -- the machine only through readings of the clock, draws of random ids, and executions of calls that
  -- the permissions of its root capability allow in the state of the files at the moment of the
  -- decision, which is the state that the call is executed in. The mode, the task and the root stay.
  pub run_principal-Confined :
      (pr : Principal) (turns : ℕ) (s : Session sys crates pr)
      → s.state.0.mode ≡ enforced
      → Confined s.state.0.root.permissions s.state.1
          (run_principal sys crates pr turns s).1.state.1
        × SameSetup s.state.0 (run_principal sys crates pr turns s).1.state.0
  run_principal-Confined pr turns s on =
      run_principal-InBounds pr s.state.0 on s.state.1 turns s (here, (refl, refl, refl))
