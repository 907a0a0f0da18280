-- ===== src/Tests/Logs.antt =====
-- The theorems on the audit log and the feedback at concrete inputs.
use attenuate_agent.Prelude.{
  ◌<◌, ◌≤◌, ◌++◌, List, [], ◌∷◌, Text, text, length, none, Result, ok, err, ◌≡◌, refl, ◌↔◌, ◌⊎◌,
  inl, inr, arith, ℕ, ◌+◌, ◌*◌, ◌/◌, ◌%◌,
}
use attenuate_agent.External.{DateTime}
use attenuate_agent.Audit.{
  AuditEntry, AuditEvent, root_minted, tool_allowed, tool_denied, hash_mismatch, entry_bytes,
  verify_chain, hash_entry_fields,
}
use attenuate_agent.Audit.Bytes.{IsLawful, entry_bytes-injective}
use attenuate_agent.Audit.Chain.{IsChain, verify_chain_iff, FaultAt, verify_chain-FaultAt}
use attenuate_agent.Audit.Tamper.{verify_chain-tamper_evident}
use attenuate_agent.Agent.Feedback.{truncate_for_feedback, count_chars, max_feedback_chars}
use attenuate_agent.Agent.Truncation.{marker, truncate_for_feedback_lem}
use attenuate_agent.Tests.Crates.{clock, nanos}
use attenuate_agent.Tests.Machine.{id_of}

abbrev plain : Text → Text
plain s = s

clock-IsLawful : IsLawful clock
clock-IsLawful = record {
  length-timestamp = λ t. refl;
  length-subsec_nanos = λ t. refl;
  parts-injective = λ s t p q. parts s t p q;
}
  where
    parts :
        (s t : DateTime)
        → clock.timestamp s ≡ clock.timestamp t
        → clock.subsec_nanos s ≡ clock.subsec_nanos t
        → s ≡ t
    parts s t p q =
        let a : s / nanos ≡ t / nanos = cc in let b : s % nanos ≡ t % nanos = cc in omega arith

unfoldable sealed : ℕ → AuditEvent → Text → AuditEntry
unfolding hash_entry_fields entry_bytes
sealed n event previous_hash = record {
  id = id_of n;
  timestamp = n * nanos;
  event = event;
  previous_hash = previous_hash;
  entry_hash = hash_entry_fields clock plain (id_of n) (n * nanos) event previous_hash;
}

abbrev entry_1 : AuditEntry
unfolding sealed
entry_1 = sealed 1 (root_minted (id_of 7)) []

abbrev entry_2 : AuditEntry
unfolding sealed
entry_2 = sealed 2 (tool_allowed (text "fs_read")) entry_1.entry_hash

abbrev log : List AuditEntry
log = entry_1 ∷ entry_2 ∷ []

log_ok : verify_chain clock plain log ≡ ok tt
unfolding verify_chain entry_1 entry_2 attenuate_agent.Prelude.text_eq text
log_ok = refl

verify_chain_iff_example : (verify_chain clock plain log ≡ ok tt) ↔ IsChain clock plain none log
verify_chain_iff_example = verify_chain_iff clock plain log

-- The second entry with another event.
abbrev forged : AuditEntry
forged = record entry_2 { event = tool_denied (text "fs_read") (text "no") }

verify_chain-FaultAt_example : FaultAt clock plain none (entry_1 ∷ forged ∷ []) 0 (hash_mismatch 1)
unfolding verify_chain entry_1 entry_2 attenuate_agent.Prelude.text_eq text
verify_chain-FaultAt_example = verify_chain-FaultAt clock plain (entry_1 ∷ forged ∷ []) refl

entry_bytes-injective_example :
    (id_of 3 ≡ id_of 3)
    × (nanos ≡ nanos)
    × (tool_allowed (text "fs_read") ≡ tool_allowed (text "fs_read"))
    × (text "h" ≡ text "h")
unfolding text
entry_bytes-injective_example =
    entry_bytes-injective clock clock-IsLawful (id_of 3) (id_of 3) nanos nanos
      (tool_allowed (text "fs_read")) (tool_allowed (text "fs_read")) (text "h") (text "h") refl
      refl (omega arith) (omega arith) refl

verify_chain-tamper_evident_example : log ≡ log
unfolding entry_1 entry_2 text
verify_chain-tamper_evident_example =
    verify_chain-tamper_evident clock clock-IsLawful plain log log (λ e f i j same. same) log_ok
      log_ok (refl, refl, (refl, omega arith, tt)) (refl, refl, (refl, omega arith, tt)) refl refl

truncate_for_feedback_lem_example :
    ((count_chars (text "ok") ≤ max_feedback_chars)
      × (truncate_for_feedback (text "ok") ≡ text "ok"))
    ⊎ ((max_feedback_chars < count_chars (text "ok"))
        × (head rest : Text) × (text "ok" ≡ head ++ rest)
        × (count_chars head ≡ max_feedback_chars)
        × (truncate_for_feedback (text "ok") ≡ head ++ marker (text "ok")))
truncate_for_feedback_lem_example = truncate_for_feedback_lem (text "ok")
