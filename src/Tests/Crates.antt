-- ===== src/Tests/Crates.antt =====
-- Small implementations of what the crates call, for the runs below.
use attenuate_agent.Prelude.{
  ℕ, zero, suc, ◌+◌, ◌-◌, ◌*◌, ◌/◌, ◌%◌, Option, none, some, List, [], ◌∷◌, ◌++◌, map, Text,
  text_eq, Result, ok, err, ◌==◌, if◌then◌else◌, leb, length,
}
use attenuate_agent.Prelude.Int.{ℤ, pos, negsuc}
use attenuate_agent.External.{Chrono, UuidText, Fact, unary, binary, BiscuitAuth}
use attenuate_agent.Capability.Codec.Texts.{unescape}

abbrev pub nanos : ℕ
nanos = 1000000000

-- A clock that begins at 1970, with `Duration::seconds` panicking from i64::MAX / 1000 on.
abbrev pub clock : Chrono
clock = record {
  seconds = λ n. if leb n 9223372036854775 then some (n * nanos) else none;
  checked_add_signed = λ t d. some (t + d);
  to_rfc3339 = λ t. t ∷ [];
  parse_from_rfc3339 = λ s. elim s [ [] ↦ none | t ∷ rest ↦ some t ];
  timestamp = λ t. 0 ∷ 0 ∷ 0 ∷ 0 ∷ 0 ∷ 0 ∷ 0 ∷ t / nanos ∷ [];
  subsec_nanos = λ t. 0 ∷ 0 ∷ 0 ∷ t % nanos ∷ [];
}

-- An id is printed in characters behind the backslash.
abbrev pub plain_uuid : UuidText
plain_uuid = record { to_string = map (λ n. n + 93); parse_str = λ s. some (map (λ n. n - 93) s) }

-- Numbers above zero, and a zero behind the last.
abbrev pub terminated : Text → Text
terminated [] = 0 ∷ []
terminated (c ∷ s) = suc c ∷ terminated s

abbrev pub fact_bytes : Fact → Text
fact_bytes (unary p v) = 0 ∷ (terminated p ++ terminated v)
fact_bytes (binary p (pos id) v) = 1 ∷ id ∷ (terminated p ++ terminated v)
fact_bytes (binary p (negsuc id) v) = 2 ∷ id ∷ (terminated p ++ terminated v)

abbrev pub facts_bytes : List Fact → Text
facts_bytes [] = []
facts_bytes (f ∷ fs) = fact_bytes f ++ facts_bytes fs

-- The text before the zero, and what is behind it.
abbrev pub split_zero : Text → Option (Text × Text)
split_zero [] = none
split_zero (zero ∷ s) = some ([], s)
split_zero (suc c ∷ s) = elim (split_zero s) [ none ↦ none | some (t, rest) ↦ some (c ∷ t, rest) ]

abbrev pub two_texts : (Text → Text → Fact) → Text → Option (Fact × Text)
two_texts f s = elim (split_zero s) [
  | none ↦ none
  | some (p, rest) ↦ elim (split_zero rest) [ none ↦ none | some (v, more) ↦ some (f p v, more) ]
]

abbrev pub first_fact : Text → Option (Fact × Text)
first_fact [] = none
first_fact (zero ∷ s) = two_texts unary s
first_fact (suc k ∷ []) = none
first_fact (suc k ∷ id ∷ s) = two_texts (λ p v. binary p (if k == 0 then pos id else negsuc id) v) s

-- One round for each fact; a text has fewer facts than numbers.
abbrev pub facts_of : ℕ → Text → Option (List Fact)
facts_of zero s = none
facts_of (suc rounds) [] = some []
facts_of (suc rounds) (c ∷ s) = elim (first_fact (c ∷ s)) [
  | none ↦ none
  | some (f, rest) ↦ elim (facts_of rounds rest) [ none ↦ none | some fs ↦ some (f ∷ fs) ]
]

abbrev pub unary_values : Text → List Fact → List Text
unary_values p [] = []
unary_values p (unary q v ∷ fs) = if text_eq q p then v ∷ unary_values p fs else unary_values p fs
unary_values p (binary q id v ∷ fs) = unary_values p fs

abbrev pub binary_values : Text → List Fact → List (ℤ × Text)
binary_values p [] = []
binary_values p (unary q v ∷ fs) = binary_values p fs
binary_values p (binary q id v ∷ fs) =
    if text_eq q p then (id, v) ∷ binary_values p fs else binary_values p fs

abbrev pub fact_of : Text → Option ℤ → Option Text → Result Text Fact
fact_of p id none = err []
fact_of p none (some v) = ok (unary p v)
fact_of p (some id) (some v) = ok (binary p id v)

-- A token is the list of its facts, one number for the key in front of them.
abbrev pub tokens : BiscuitAuth
tokens = record {
  KeyPair = ℕ;
  PublicKey = ℕ;
  Biscuit = ℕ × List Fact;
  Authorizer = List Fact;
  public = λ k. k;
  to_bytes = λ k. k ∷ [];
  from_bytes = λ s. elim s [ [] ↦ err [] | k ∷ rest ↦ ok k ];
  parse_fact = λ s. fact_of s.predicate s.block_id (unescape s.literal);
  build = λ fs k. ok (k, fs);
  append = λ b fs. ok (b.0, b.1 ++ fs);
  to_vec = λ b. ok (b.0 ∷ facts_bytes b.1);
  from = λ s k. elim s [
    | [] ↦ err []
    | j ∷ rest ↦
        if j == k
        then elim (facts_of (suc (length rest)) rest) [ none ↦ err [] | some fs ↦ ok (j, fs) ]
        else err []
  ];
  authorizer = λ b. ok b.1;
  set_limits = λ n a. a;
  query_unary = λ a p. ok (unary_values p a);
  query_binary = λ a p. ok (binary_values p a);
}
