-- ===== src/Agent/Truncation.antt =====
-- What a tool's output costs the conversation: `truncate_for_feedback` of agent/src/lib.rs.
use attenuate_agent.Prelude.{
  ℕ, zero, suc, ◌≤◌, ◌<◌, [], ◌∷◌, ◌++◌, Text, text, ◌≡◌, sym, arith, leb, Bool-cases, inl, inr,
  length, if◌then◌else◌, ◌⊎◌,
}
use attenuate_agent.Prelude.Decimal.{decimal}
use attenuate_agent.Agent.Feedback.{
  starts_char, count_chars, take_chars, truncate_for_feedback, max_feedback_chars,
}

-- The rest of a text behind its first `n` characters.
unfoldable drop_chars : ℕ → Text → Text
drop_chars n [] = []
drop_chars zero (b ∷ s) = if starts_char b then b ∷ s else drop_chars zero s
drop_chars (suc n) (b ∷ s) = drop_chars (if starts_char b then n else suc n) s

take_chars-append-drop_chars : (n : ℕ) (s : Text) → take_chars n s ++ drop_chars n s ≡ s
unfolding take_chars drop_chars
take_chars-append-drop_chars n [] = ground arith
take_chars-append-drop_chars zero (b ∷ s) = ground (arith, take_chars-append-drop_chars zero s)
take_chars-append-drop_chars (suc n) (b ∷ s) =
    ground (arith, take_chars-append-drop_chars n s, take_chars-append-drop_chars (suc n) s)

count_chars-take_chars : (n : ℕ) (s : Text) → n ≤ count_chars s → count_chars (take_chars n s) ≡ n
unfolding take_chars count_chars
count_chars-take_chars n [] h = ground arith
count_chars-take_chars zero (b ∷ s) h = ground (arith, count_chars-take_chars zero s)
count_chars-take_chars (suc n) (b ∷ s) h =
    ground (arith, count_chars-take_chars n s, count_chars-take_chars (suc n) s)

-- The marker that replaces the rest of a long output.
abbrev pub marker : Text → Text
marker s = (10 ∷ text "... (truncated; ") ++ (decimal (length s) ++ text " bytes total)")

-- Output of at most 4000 characters is fed back as it is. Of longer output the feedback is a
-- beginning that has exactly 4000 characters, and the marker with the number of bytes in all.
pub truncate_for_feedback_lem :
    (s : Text)
    → ((count_chars s ≤ max_feedback_chars) × (truncate_for_feedback s ≡ s))
      ⊎ ((max_feedback_chars < count_chars s)
          × (head rest : Text) × (s ≡ head ++ rest)
          × (count_chars head ≡ max_feedback_chars)
          × (truncate_for_feedback s ≡ head ++ marker s))
unfolding truncate_for_feedback
truncate_for_feedback_lem s = elim (Bool-cases (leb (count_chars s) max_feedback_chars)) [
  | inl e ↦ inl (ground arith, rw e)
  | inr e ↦ inr (
    ground arith,
    take_chars max_feedback_chars s,
    drop_chars max_feedback_chars s,
    sym (take_chars-append-drop_chars max_feedback_chars s),
    count_chars-take_chars max_feedback_chars s (ground arith),
    rw e,
  )
]
