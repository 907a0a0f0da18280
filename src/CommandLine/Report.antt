-- ===== src/CommandLine/Report.antt =====
-- What agent/src/main.rs prints, and the texts of audit events and errors that it prints with it.
use attenuate_agent.Prelude.{ℕ, zero, suc, ◌-◌, List, [], ◌∷◌, ◌++◌, map, Text, text, length}
use attenuate_agent.Prelude.Decimal.{decimal}
use attenuate_agent.External.{UuidText}
use attenuate_agent.Pep.Messages.{capability_message}
use attenuate_agent.Audit.{
  AuditEntry, AuditEvent, root_minted, capability_attenuated, tool_allowed, tool_denied, AuditError,
  broken_chain, hash_mismatch,
}
use attenuate_agent.Tools
use attenuate_agent.Tools.{ToolOutput, tool_name}
use attenuate_agent.Agent.Mode.{AuthzMode, enforced, bypassed}
use attenuate_agent.Agent.Feedback.{
  StepDecision, StepOutcome, allowed, denied, errored, count_chars, status_text,
}
use attenuate_agent.Agent.Orchestrator
use attenuate_agent.Agent.Orchestrator.{OrchestratorError}

-- `impl Display for AuditEvent`; the dash is U+2014.
unfoldable pub event_text : UuidText → AuditEvent → Text
event_text ids (root_minted task_id) = text "ROOT MINTED   task=" ++ ids.to_string task_id
event_text ids (capability_attenuated task_id) = text "ATTENUATED    task=" ++ ids.to_string task_id
event_text ids (tool_allowed name) = text "ALLOWED       " ++ name
event_text ids (tool_denied name reason) =
    text "DENIED        "
    ++ (name ++ (text "  " ++ ((0xe2 ∷ 0x80 ∷ 0x94 ∷ []) ++ (text " " ++ reason))))

-- The texts of `AuditError`'s and `OrchestratorError`'s `Display`.
unfoldable pub audit_message : AuditError → Text
audit_message (broken_chain index) = text "audit chain is broken at entry " ++ decimal index
audit_message (hash_mismatch index) = text "audit entry hash mismatch at entry " ++ decimal index

unfoldable pub orchestrator_message : OrchestratorError → Text
unfolding audit_message
orchestrator_message (Orchestrator.mint e) =
    text "failed to mint root capability: " ++ capability_message e
orchestrator_message (Orchestrator.audit e) =
    text "failed to write audit entry: " ++ audit_message e

-- `{:?}` of the mode.
unfoldable pub mode_text : AuthzMode → Text
mode_text enforced = text "Enforced"
mode_text bypassed = text "Bypassed"

unfoldable pub mode_line : AuthzMode → Text
unfolding mode_text
mode_line mode = text "AUTHZ = " ++ (mode_text mode ++ (10 ∷ []))

unfoldable pub spaces : ℕ → Text
spaces zero = []
spaces (suc n) = 32 ∷ spaces n

-- `{:width}`
unfoldable pub padded : ℕ → Text → Text
unfolding spaces
padded width s = s ++ spaces (width - count_chars s)

unfoldable pub describe_output : ToolOutput → Text
describe_output (Tools.read content) = text "read " ++ (decimal (length content) ++ text " bytes")
describe_output (Tools.write bytes_written) =
    text "wrote " ++ (decimal bytes_written ++ text " bytes")
describe_output (ToolOutput.exec status stdout stderr) = text "exec status=" ++ status_text status
describe_output (ToolOutput.network bytes_sent) =
    text "sent " ++ (decimal bytes_sent ++ text " bytes")

-- The tag and the detail of a decision.
unfoldable pub tag_and_detail : StepDecision → Text × Text
unfolding describe_output
tag_and_detail (allowed output) = (text "ALLOW", describe_output output)
tag_and_detail (denied reason) = (text "DENY ", reason)
tag_and_detail (errored reason) = (text "ERROR", reason)

unfoldable pub print_outcome : StepOutcome → Text
unfolding tag_and_detail padded
print_outcome outcome =
    let (tag, detail) = tag_and_detail outcome.decision in
    text "[" ++ (tag ++ (text "] " ++ (padded 8 (tool_name outcome.call) ++ (text " " ++ detail))))

-- The outcomes and then the audit log, one printed line each.
unfoldable pub report_lines : UuidText → List StepOutcome → List AuditEntry → List Text
unfolding print_outcome event_text
report_lines ids outcomes audit_log =
    map print_outcome outcomes
    ++ ((10 ∷ (text "--- audit log (" ++ (decimal (length audit_log) ++ text " entries) ---")))
        ∷ map (λ (entry : AuditEntry). event_text ids entry.event) audit_log)
