-- ===== src/Agent/Orchestrator.antt =====
-- `Orchestrator` of agent/src/lib.rs: its state, the audit records and one step.
use attenuate_agent.Prelude.{ℕ, some, List, [], ◌∷◌, ◌++◌, Text, text, Result, ok, err, panic}
use attenuate_agent.Prelude.Runs.{Run}
use attenuate_agent.External.{Uuid, System}
use attenuate_agent.Manifest.{TaskManifest}
use attenuate_agent.Capability.Data.{
  AttenuationRequest, RootCapability, CapabilityError, ChildCapability, RequestBinding,
}
use attenuate_agent.Capability.Token
use attenuate_agent.Capability.Token.{attenuate_root}
use attenuate_agent.Pep.Messages.{capability_message, verification_message}
use attenuate_agent.Audit.{
  AuditEntry, AuditEvent, AuditError, root_minted, capability_attenuated, tool_allowed, tool_denied,
  chain_entry,
}
use attenuate_agent.Tools
use attenuate_agent.Tools.{
  ToolCall, ToolOutput, ToolError, Crates, to_request, tool_name, request_binding_for, execute,
  dispatch,
}
use attenuate_agent.Agent.Mode.{AuthzMode, enforced, bypassed}
use attenuate_agent.Agent.Feedback.{StepDecision, StepOutcome, allowed, denied, errored}

pub record Orchestrator : Type 0 where
  pub mode : AuthzMode
  pub task_id : Uuid
  pub root : RootCapability
  pub audit_log : List AuditEntry
  pub previous_hash : Text

pub data OrchestratorError : Type 0 where
  mint : CapabilityError → OrchestratorError
  audit : AuditError → OrchestratorError

abbrev pub child_ttl_seconds : ℕ
child_ttl_seconds = 5

-- The texts of `ToolError`'s `Display`.
unfoldable pub tool_message : ToolError → Text
tool_message (Tools.verification e) = text "authorization failed: " ++ verification_message e
tool_message (Tools.serialize e) = text "failed to serialize tool request arguments: " ++ e
tool_message (Tools.denied reason) = text "tool request denied: " ++ reason
tool_message (Tools.io e) = text "tool execution io error: " ++ e

abbrev pub zero_hash : Text
zero_hash =
    0 ∷ 0 ∷ 0 ∷ 0 ∷ 0 ∷ 0 ∷ 0 ∷ 0 ∷ 0 ∷ 0 ∷ 0 ∷ 0 ∷ 0 ∷ 0 ∷ 0 ∷ 0 ∷ 0 ∷ 0 ∷ 0 ∷ 0 ∷ 0 ∷ 0 ∷ 0 ∷ 0
    ∷ 0 ∷ 0 ∷ 0 ∷ 0 ∷ 0 ∷ 0 ∷ 0 ∷ 0 ∷ []

-- `self.previous_hash = entry.entry_hash; self.audit_log.push(entry)`
unfoldable pub append_entry : AuditEntry → Orchestrator → Orchestrator
append_entry entry o = record o {
  audit_log = o.audit_log ++ (entry ∷ []);
  previous_hash = entry.entry_hash;
}

-- The request for the child: the scope of the root, a short life, this one invocation.
unfoldable pub child_request : RootCapability → RequestBinding → AttenuationRequest
child_request root binding = record {
  readable_roots = root.permissions.readable_roots;
  writable_roots = root.permissions.writable_roots;
  exec_binaries = root.permissions.exec_binaries;
  network = root.permissions.network;
  ttl_seconds = child_ttl_seconds;
  request_binding = some binding;
}

-- The struct that `new` builds before its first record.
unfoldable pub initial : RootCapability → TaskManifest → AuthzMode → Orchestrator
initial root manifest mode = record {
  mode = mode;
  task_id = manifest.task_id;
  root = root;
  audit_log = [];
  previous_hash = zero_hash;
}

module _ (sys : System) (crates : Crates) where
  open crates use {chrono, uuid, biscuit, hash, to_json}

  -- The orchestrator and the machine that it runs on.
  abbrev pub State : Type 0
  State = Orchestrator × sys.World

  -- `record`
  unfoldable pub record_event : AuditEvent → Run State OrchestratorError (Unit {0})
  unfolding append_entry chain_entry
  record_event event (o, w) =
      let (t, w') = sys.now w in
      let (id, w'') = sys.new_v4 w' in
      elim (chain_entry chrono hash id o.previous_hash t event) [
        | ok entry ↦ (ok tt, (append_entry entry o, w''))
        | err e ↦ (err (audit e), (o, w''))
        | panic ↦ (panic, (o, w''))
      ]

  -- `let _ = self.record(event)`
  unfoldable pub record_lossy : AuditEvent → State → State
  unfolding record_event
  record_lossy event s = (record_event event s).1

  -- `record_lossy` and then the outcome.
  unfoldable pub conclude : ToolCall → AuditEvent → StepDecision → State → StepOutcome × State
  unfolding record_lossy
  conclude call event decision s =
      (record { call = call; decision = decision }, record_lossy event s)

  unfoldable pub deny : ToolCall → Text → State → StepOutcome × State
  unfolding conclude
  deny call reason = conclude call (tool_denied (tool_name call) reason) (denied reason)

  -- The arms of `match execute(&call)`; a panic ends the program.
  unfoldable pub finish_bypassed :
      ToolCall → Result ToolError ToolOutput → Run State Text StepOutcome
  unfolding conclude
  finish_bypassed call (ok output) s =
      let (out, s') = conclude call (tool_allowed (tool_name call)) (allowed output) s in
      (ok out, s')
  finish_bypassed call (err e) s =
      let (out, s') =
        conclude call (tool_denied (tool_name call) (text "execution error: " ++ tool_message e))
          (errored (tool_message e)) s in
      (ok out, s')
  finish_bypassed call panic s = (panic, s)

  unfoldable pub step_bypassed : ToolCall → Run State Text StepOutcome
  unfolding finish_bypassed
  step_bypassed call (o, w) = let (r, w') = execute sys call w in finish_bypassed call r (o, w')

  -- The arms of `match dispatch(child, &call, Some(nonce))`.
  unfoldable pub finish_enforced :
      ToolCall → Result ToolError ToolOutput → Run State Text StepOutcome
  unfolding conclude deny
  finish_enforced call (ok output) s =
      let (out, s') = conclude call (tool_allowed (tool_name call)) (allowed output) s in
      (ok out, s')
  finish_enforced call (err (Tools.denied reason)) s =
      let (out, s') = deny call reason s in (ok out, s')
  finish_enforced call (err (Tools.verification e)) s =
      let (out, s') = deny call (verification_message e) s in (ok out, s')
  finish_enforced call (err (Tools.serialize e)) s =
      let (out, s') = deny call (text "argument serialization failed: " ++ e) s in (ok out, s')
  finish_enforced call (err (Tools.io e)) s =
      let (out, s') =
        conclude call (tool_denied (tool_name call) (text "execution error: " ++ e)) (errored e)
          s in
      (ok out, s')
  finish_enforced call panic s = (panic, s)

  -- What follows `attenuate`.
  unfoldable pub dispatch_child :
      ToolCall → Uuid → Result CapabilityError ChildCapability → Run State Text StepOutcome
  unfolding finish_enforced record_lossy deny
  dispatch_child call nonce (ok child) s =
      let (o, w) = record_lossy (capability_attenuated s.0.task_id) s in
      let (r, w') = dispatch sys crates child call (some nonce) w in finish_enforced call r (o, w')
  dispatch_child call nonce (err e) s =
      let (out, s') = deny call (text "capability not mintable: " ++ capability_message e) s in
      (ok out, s')
  dispatch_child call nonce panic s = (panic, s)

  -- What follows `request_binding_for`.
  unfoldable pub attenuate_and_dispatch :
      ToolCall → ℕ → Uuid → Result Text RequestBinding → Run State Text StepOutcome
  unfolding dispatch_child child_request deny
  attenuate_and_dispatch call now nonce (ok binding) s =
      dispatch_child call nonce
        (attenuate_root (sys.files s.1) chrono uuid biscuit s.0.root
          (child_request s.0.root binding) now)
        s
  attenuate_and_dispatch call now nonce (err e) s =
      let (out, s') = deny call (text "request binding failed: " ++ e) s in (ok out, s')
  attenuate_and_dispatch call now nonce panic s = (panic, s)

  unfoldable pub step_enforced : ToolCall → Run State Text StepOutcome
  unfolding attenuate_and_dispatch
  step_enforced call (o, w) =
      let (now, w') = sys.now w in
      let (nonce, w'') = sys.new_v4 w' in
      attenuate_and_dispatch call now nonce
        (request_binding_for hash to_json (to_request call) nonce) (o, w'')

  -- The `match` of `step`.
  unfoldable pub step_in : AuthzMode → ToolCall → Run State Text StepOutcome
  unfolding step_enforced step_bypassed
  step_in enforced = step_enforced
  step_in bypassed = step_bypassed

  unfoldable pub step : ToolCall → Run State Text StepOutcome
  unfolding step_in
  step call s = step_in s.0.mode call s

  -- What `new` does after `RootCapability::mint(..)?`.
  unfoldable pub start :
      TaskManifest
      → AuthzMode
      → Result CapabilityError RootCapability
      → Run sys.World OrchestratorError Orchestrator
  unfolding record_event initial
  start manifest mode (err e) w = (err (mint e), w)
  start manifest mode panic w = (panic, w)
  start manifest mode (ok root) w =
      let (r, (o, w')) =
        record_event (root_minted manifest.task_id) (initial root manifest mode, w) in
      elim r [ ok done ↦ (ok o, w') | err e ↦ (err e, w') | panic ↦ (panic, w') ]

  -- `new`, with the key pair that `mint` draws.
  unfoldable pub new :
      biscuit.KeyPair → TaskManifest → AuthzMode → Run sys.World OrchestratorError Orchestrator
  unfolding start
  new keypair manifest mode w =
      let (now, w') = sys.now w in
      start manifest mode (Token.mint (sys.files w') chrono uuid biscuit keypair manifest now) w'
