-- ===== src/Agent/Trail.antt =====
-- What a step of the orchestrator records of its decision, in either mode (agent/src/lib.rs).
use attenuate_agent.Prelude.{
  ℕ, some, List, [], ◌∷◌, ◌++◌, map, Text, text, Result, ok, err, panic, ◌≡◌, refl, ap, ◌∙◌, ◌⊎◌,
  inl, inr,
}
use mathlib.Core.List.{append_assoc, map-append}
use attenuate_agent.External.{Uuid, System}
use attenuate_agent.Capability.Data.{ChildCapability, CapabilityError, RequestBinding}
use attenuate_agent.Audit.{AuditEntry, AuditEvent, capability_attenuated, tool_allowed, tool_denied}
use attenuate_agent.Tools
use attenuate_agent.Tools.{
  ToolCall, ToolOutput, ToolError, Crates, to_request, tool_name, request_binding_for, execute,
  dispatch,
}
use attenuate_agent.Agent.Mode.{AuthzMode, enforced, bypassed}
use attenuate_agent.Agent.Feedback.{StepDecision, StepOutcome, allowed, denied, errored}
use attenuate_agent.Agent.Orchestrator.{
  Orchestrator, State, tool_message, record_lossy, finish_enforced, finish_bypassed, dispatch_child,
  attenuate_and_dispatch, step_enforced, step_bypassed, step_in, step,
}

abbrev pub events : Orchestrator → List AuditEvent
events o = map (λ (entry : AuditEntry). entry.event) o.audit_log

-- What is recorded of a decision on a call: with enforcement the attenuation and then the decision, or
-- a denial alone where no child could be made; without it the decision alone, which is no denial. A
-- failed execution is recorded as denied, with its error.
pub data Trail (task_id : Uuid) (call : ToolCall)
    : AuthzMode → StepDecision → List AuditEvent → Type 0 where
  attenuated_and_allowed :
      (output : ToolOutput)
      → Trail task_id call enforced
          (allowed output)
          (capability_attenuated task_id ∷ tool_allowed (tool_name call) ∷ [])
  attenuated_and_denied :
      (reason : Text)
      → Trail task_id call enforced
          (denied reason)
          (capability_attenuated task_id ∷ tool_denied (tool_name call) reason ∷ [])
  attenuated_and_failed :
      (e : Text)
      → Trail task_id call enforced (errored e) (
          capability_attenuated task_id
          ∷ tool_denied (tool_name call) (text "execution error: " ++ e)
          ∷ [])
  not_attenuated :
      (reason : Text)
      → Trail task_id call enforced (denied reason) (tool_denied (tool_name call) reason ∷ [])
  executed :
      (output : ToolOutput)
      → Trail task_id call bypassed (allowed output) (tool_allowed (tool_name call) ∷ [])
  failed :
      (e : Text)
      → Trail task_id call bypassed
          (errored e)
          (tool_denied (tool_name call) (text "execution error: " ++ e) ∷ [])

module _ (sys : System) (crates : Crates) where
  -- A step panics, or answers its call with a decision that is recorded behind the log of `o`.
  abbrev pub Recorded :
      AuthzMode → ToolCall → Orchestrator → Result Text StepOutcome × State sys crates → Type 0
  Recorded mode call o (r, s) =
      (r ≡ panic)
      ⊎ ((decision : StepDecision) × (added : List AuditEvent) × (r
            ≡ ok (record { call = call; decision = decision }))
          × (events s.0 ≡ events o ++ added)
          × Trail o.task_id call mode decision added)

  record_lossy-events :
      (event : AuditEvent) (s : State sys crates)
      → events (record_lossy sys crates event s).0 ≡ events s.0 ++ (event ∷ [])
  unfolding record_lossy
  record_lossy-events event (o, w) = map-append (λ (entry : AuditEntry). entry.event) o.audit_log _

  record_lossy-twice :
      (o : Orchestrator) (first event : AuditEvent) (s : State sys crates)
      → events s.0 ≡ events o ++ (first ∷ [])
      → events (record_lossy sys crates event s).0 ≡ events o ++ (first ∷ event ∷ [])
  record_lossy-twice o first event s h =
      record_lossy-events event s
      ∙ (ap (λ es. es ++ (event ∷ [])) h ∙ append_assoc (events o) (first ∷ []) (event ∷ []))

  finish_bypassed-Recorded :
      (call : ToolCall) (r : Result ToolError ToolOutput) (o : Orchestrator) (w : sys.World)
      → Recorded bypassed call o (finish_bypassed sys crates call r (o, w))
  unfolding finish_bypassed
  finish_bypassed-Recorded call (ok output) o w =
      inr (allowed output, _, refl, record_lossy-events _ (o, w), executed output)
  finish_bypassed-Recorded call (err e) o w =
      inr (errored (tool_message e), _, refl, record_lossy-events _ (o, w), failed (tool_message e))
  finish_bypassed-Recorded call panic o w = inl refl

  finish_enforced-Recorded :
      (call : ToolCall) (r : Result ToolError ToolOutput) (o : Orchestrator) (s : State sys crates)
      → events s.0 ≡ events o ++ (capability_attenuated o.task_id ∷ [])
      → Recorded enforced call o (finish_enforced sys crates call r s)
  unfolding finish_enforced
  finish_enforced-Recorded call (ok output) o s h =
      inr (allowed output, _, refl, record_lossy-twice o _ _ s h, attenuated_and_allowed output)
  finish_enforced-Recorded call (err (Tools.denied reason)) o s h =
      inr (denied reason, _, refl, record_lossy-twice o _ _ s h, attenuated_and_denied reason)
  finish_enforced-Recorded call (err (Tools.verification e)) o s h =
      inr (denied _, _, refl, record_lossy-twice o _ _ s h, attenuated_and_denied _)
  finish_enforced-Recorded call (err (Tools.serialize e)) o s h =
      inr (denied _, _, refl, record_lossy-twice o _ _ s h, attenuated_and_denied _)
  finish_enforced-Recorded call (err (Tools.io e)) o s h =
      inr (errored e, _, refl, record_lossy-twice o _ _ s h, attenuated_and_failed e)
  finish_enforced-Recorded call panic o s h = inl refl

  dispatch_child-Recorded :
      (call : ToolCall) (nonce : Uuid) (r : Result CapabilityError ChildCapability)
      (o : Orchestrator) (w : sys.World)
      → Recorded enforced call o (dispatch_child sys crates call nonce r (o, w))
  unfolding dispatch_child
  dispatch_child-Recorded call nonce (ok child) o w =
      let event = capability_attenuated o.task_id in
      let s = record_lossy sys crates event (o, w) in
      let (r, v) = dispatch sys crates child call (some nonce) s.1 in
      finish_enforced-Recorded call r o (s.0, v) (record_lossy-events event (o, w))
  dispatch_child-Recorded call nonce (err e) o w =
      inr (denied _, _, refl, record_lossy-events _ (o, w), not_attenuated _)
  dispatch_child-Recorded call nonce panic o w = inl refl

  attenuate_and_dispatch-Recorded :
      (call : ToolCall) (now : ℕ) (nonce : Uuid) (r : Result Text RequestBinding) (o : Orchestrator)
      (w : sys.World)
      → Recorded enforced call o (attenuate_and_dispatch sys crates call now nonce r (o, w))
  unfolding attenuate_and_dispatch
  attenuate_and_dispatch-Recorded call now nonce (ok binding) o w =
      dispatch_child-Recorded call nonce _ o w
  attenuate_and_dispatch-Recorded call now nonce (err e) o w =
      inr (denied _, _, refl, record_lossy-events _ (o, w), not_attenuated _)
  attenuate_and_dispatch-Recorded call now nonce panic o w = inl refl

  step_in-Recorded :
      (mode : AuthzMode) (call : ToolCall) (o : Orchestrator) (w : sys.World)
      → Recorded mode call o (step_in sys crates mode call (o, w))
  unfolding step_in step_enforced step_bypassed
  step_in-Recorded enforced call o w = attenuate_and_dispatch-Recorded call _ _ _ o _
  step_in-Recorded bypassed call o w = finish_bypassed-Recorded call _ o _

  pub step-Recorded :
      (call : ToolCall) (o : Orchestrator) (w : sys.World)
      → Recorded o.mode call o (step sys crates call (o, w))
  unfolding step
  step-Recorded call o w = step_in-Recorded o.mode call o w
