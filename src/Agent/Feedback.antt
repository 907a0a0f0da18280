-- ===== src/Agent/Feedback.antt =====
-- What one tool call came to, and the text of it that goes back to the principal
-- (agent/src/lib.rs).
use attenuate_agent.Prelude.{
  ℕ, zero, suc, ◌+◌, Bool, ◌||◌, Option, none, some, [], ◌∷◌, ◌++◌, Text, text, leb, ltb, length,
  if◌then◌else◌,
}
use attenuate_agent.Prelude.Int.{ℤ, pos, negsuc}
use attenuate_agent.Prelude.Decimal.{decimal}
use attenuate_agent.Tools
use attenuate_agent.Tools.{ToolCall, ToolOutput}

pub data StepDecision : Type 0 where
  allowed : ToolOutput → StepDecision
  denied : Text → StepDecision
  errored : Text → StepDecision

pub record StepOutcome : Type 0 where
  pub call : ToolCall
  pub decision : StepDecision

abbrev pub max_feedback_chars : ℕ
max_feedback_chars = 4000

-- A byte that begins a character, not one that continues it.
unfoldable pub starts_char : ℕ → Bool
starts_char b = ltb b 0x80 || leb 0xc0 b

-- `chars().count()`
unfoldable pub count_chars : Text → ℕ
unfolding starts_char
count_chars [] = 0
count_chars (b ∷ s) = (if starts_char b then 1 else 0) + count_chars s

-- `chars().take(n).collect()`
unfoldable pub take_chars : ℕ → Text → Text
unfolding starts_char
take_chars n [] = []
take_chars zero (b ∷ s) = if starts_char b then [] else b ∷ take_chars zero s
take_chars (suc n) (b ∷ s) = b ∷ take_chars (if starts_char b then n else suc n) s

unfoldable pub truncate_for_feedback : Text → Text
truncate_for_feedback s =
    if leb (count_chars s) max_feedback_chars
    then s
    else take_chars max_feedback_chars s
      ++ ((10 ∷ text "... (truncated; ") ++ (decimal (length s) ++ text " bytes total)"))

-- `{:?}` of an exit status.
unfoldable pub status_text : Option ℤ → Text
status_text none = text "None"
status_text (some (pos n)) = text "Some(" ++ (decimal n ++ text ")")
status_text (some (negsuc n)) = text "Some(-" ++ (decimal (n + 1) ++ text ")")

unfoldable pub output_feedback : ToolOutput → Text
unfolding truncate_for_feedback status_text
output_feedback (Tools.read content) = truncate_for_feedback content
output_feedback (Tools.write bytes_written) =
    text "ok: wrote " ++ (decimal bytes_written ++ text " bytes")
output_feedback (ToolOutput.exec status stdout stderr) =
    text "exit="
    ++ (status_text status
        ++ ((10 ∷ text "--- stdout ---")
            ++ (10
                ∷ (truncate_for_feedback stdout
                    ++ ((10 ∷ text "--- stderr ---") ++ (10 ∷ truncate_for_feedback stderr))))))
output_feedback (ToolOutput.network bytes_sent) =
    text "ok: sent " ++ (decimal bytes_sent ++ text " bytes")

unfoldable pub decision_feedback : StepDecision → Text
unfolding output_feedback
decision_feedback (allowed output) = output_feedback output
decision_feedback (denied reason) = text "DENIED by authorization policy: " ++ reason
decision_feedback (errored reason) = text "ERROR executing tool: " ++ reason
