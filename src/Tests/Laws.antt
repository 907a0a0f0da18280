-- ===== src/Tests/Laws.antt =====
-- The small implementations have what is relied on of the crates.
use attenuate_agent.Prelude.{
  ℕ, zero, suc, ◌+◌, ◌-◌, ◌<◌, ◌≤◌, true, false, Option, none, some, List, [], ◌∷◌, ◌++◌, map, In,
  Text, text_eq, text_eq→eq, text_eq_refl, Result, ok, err, length, length-append, ◌==◌, Bool-cases,
  ok-injective, ◌≡◌, refl, sym, ap, subst, ◌↔◌, inl, inr, arith,
}
use mathlib.Core.List.{append_assoc}
use attenuate_agent.Prelude.Int.{ℤ, pos, negsuc}
use attenuate_agent.External.{Uuid, Fact, unary, binary}
use attenuate_agent.Capability.Codec.Texts.{unescape, unescape_from}
use attenuate_agent.Capability.Codec.Facts.{IsLawful}
use attenuate_agent.Capability.Codec.Roundtrip.{IsPrinted}
use attenuate_agent.Capability.Minting.{IsBuilt}
use attenuate_agent.Tests.Crates.{
  clock, plain_uuid, tokens, terminated, fact_bytes, facts_bytes, split_zero, two_texts, first_fact,
  facts_of, unary_values, binary_values,
}

split_zero-terminated : (t s : Text) → split_zero (terminated t ++ s) ≡ some (t, s)
split_zero-terminated [] s = refl
split_zero-terminated (c ∷ t) s = rw (split_zero-terminated t s) refl

two_texts-terminated :
    (f : Text → Text → Fact) (p v s : Text)
    → two_texts f ((terminated p ++ terminated v) ++ s) ≡ some (f p v, s)
two_texts-terminated f p v s =
    rw (append_assoc (terminated p) (terminated v) s)
      (rw (split_zero-terminated p (terminated v ++ s), split_zero-terminated v s, two_texts) refl)

first_fact-fact_bytes : (f : Fact) (s : Text) → first_fact (fact_bytes f ++ s) ≡ some (f, s)
first_fact-fact_bytes (unary p v) s = two_texts-terminated unary p v s
first_fact-fact_bytes (binary p (pos id) v) s =
    two_texts-terminated (λ p v. binary p (pos id) v) p v s
first_fact-fact_bytes (binary p (negsuc id) v) s =
    two_texts-terminated (λ p v. binary p (negsuc id) v) p v s

facts_of-first :
    (rounds c : ℕ) (s : Text) {f : Fact} {rest : Text} {fs : List Fact}
    → first_fact (c ∷ s) ≡ some (f, rest)
    → facts_of rounds rest ≡ some fs
    → facts_of (suc rounds) (c ∷ s) ≡ some (f ∷ fs)
facts_of-first rounds c s h k = rw (h, k, facts_of) refl

facts_of-cons :
    (rounds : ℕ) (f : Fact) (s : Text) {fs : List Fact}
    → facts_of rounds s ≡ some fs
    → facts_of (suc rounds) (fact_bytes f ++ s) ≡ some (f ∷ fs)
facts_of-cons rounds (unary p v) s h =
    facts_of-first rounds 0 ((terminated p ++ terminated v) ++ s)
      (first_fact-fact_bytes (unary p v) s) h
facts_of-cons rounds (binary p (pos id) v) s h =
    facts_of-first rounds 1 (id ∷ ((terminated p ++ terminated v) ++ s))
      (first_fact-fact_bytes (binary p (pos id) v) s) h
facts_of-cons rounds (binary p (negsuc id) v) s h =
    facts_of-first rounds 2 (id ∷ ((terminated p ++ terminated v) ++ s))
      (first_fact-fact_bytes (binary p (negsuc id) v) s) h

facts_of-facts_bytes :
    (fs : List Fact) (rounds : ℕ) → length fs < rounds → facts_of rounds (facts_bytes fs) ≡ some fs
facts_of-facts_bytes [] zero h = absurd (omega arith)
facts_of-facts_bytes [] (suc rounds) h = refl
facts_of-facts_bytes (f ∷ fs) zero h = absurd (omega arith)
facts_of-facts_bytes (f ∷ fs) (suc rounds) h =
    facts_of-cons rounds f (facts_bytes fs) (facts_of-facts_bytes fs rounds (omega arith))

length-fact_bytes : (f : Fact) → 0 < length (fact_bytes f)
length-fact_bytes (unary p v) = omega arith
length-fact_bytes (binary p (pos id) v) = omega arith
length-fact_bytes (binary p (negsuc id) v) = omega arith

length-facts_bytes : (fs : List Fact) → length fs ≤ length (facts_bytes fs)
length-facts_bytes [] = omega arith
length-facts_bytes (f ∷ fs) = omega (
  arith,
  length-append (fact_bytes f) (facts_bytes fs),
  length-fact_bytes f,
  length-facts_bytes fs,
)

pub unary_values_iff : (p v : Text) (fs : List Fact) → In v (unary_values p fs) ↔ In (unary p v) fs
unary_values_iff p v [] = (λ i. i, λ i. i)
unary_values_iff p v (binary q id u ∷ fs) =
    let h = unary_values_iff p v fs in
    (λ i. inr (h.0 i), λ i. elim i [ inl e ↦ absurd (ground arith) | inr k ↦ h.1 k ])
unary_values_iff p v (unary q u ∷ fs) =
    let h = unary_values_iff p v fs in
    elim (Bool-cases (text_eq q p)) [
      | inl e ↦
          let s = text_eq→eq q p e in
          rw e (
            λ i. elim i [ inl k ↦ inl cc | inr k ↦ inr (h.0 k) ],
            λ i. elim i [ inl k ↦ inl cc | inr k ↦ inr (h.1 k) ],
          )
      | inr e ↦ rw e (
        λ i. inr (h.0 i),
        λ i. elim i [
          | inl k ↦
              let s : p ≡ q = cc in
              let r = subst (λ t. text_eq t p ≡ true) s (text_eq_refl p) in absurd (ground arith)
          | inr k ↦ h.1 k
        ],
      )
    ]

pub binary_values_iff :
    (p : Text) (id : ℤ) (v : Text) (fs : List Fact)
    → In (id, v) (binary_values p fs) ↔ In (binary p id v) fs
binary_values_iff p id v [] = (λ i. i, λ i. i)
binary_values_iff p id v (unary q u ∷ fs) =
    let h = binary_values_iff p id v fs in
    (λ i. inr (h.0 i), λ i. elim i [ inl e ↦ absurd (ground arith) | inr k ↦ h.1 k ])
binary_values_iff p id v (binary q j u ∷ fs) =
    let h = binary_values_iff p id v fs in
    elim (Bool-cases (text_eq q p)) [
      | inl e ↦
          let s = text_eq→eq q p e in
          rw e (
            λ i. elim i [ inl k ↦ inl cc | inr k ↦ inr (h.0 k) ],
            λ i. elim i [ inl k ↦ inl cc | inr k ↦ inr (h.1 k) ],
          )
      | inr e ↦ rw e (
        λ i. inr (h.0 i),
        λ i. elim i [
          | inl k ↦
              let s : p ≡ q = cc in
              let r = subst (λ t. text_eq t p ≡ true) s (text_eq_refl p) in absurd (ground arith)
          | inr k ↦ h.1 k
        ],
      )
    ]

-- A token verifies under its key alone.
pub from-key :
    (token : Text) (key : ℕ) (b : ℕ × List Fact)
    → tokens.from token key ≡ ok b
    → (b.0 == key) ≡ true
from-key [] key b h = absurd (ground arith)
from-key (j ∷ rest) key b h = elim (Bool-cases (j == key)) [
  | inr e ↦ absurd (err_ne (rw e at h))
  | inl e ↦ from_facts (facts_of (suc (length rest)) rest) e (rw e at h)
]
  where
    err_ne : ◌≡◌ {A = Result Text (ℕ × List Fact)} (err []) (ok b) → ⊥
    err_ne k = absurd (ground arith)

    from_facts :
        (o : Option (List Fact))
        → (j == key) ≡ true
        → ◌≡◌ {A = Result Text (ℕ × List Fact)}
            (elim o [ none ↦ err [] | some fs ↦ ok (j, fs) ])
            (ok b)
        → (b.0 == key) ≡ true
    from_facts none e k = absurd (ground arith)
    from_facts (some fs) e k = subst (λ (x : ℕ × List Fact). (x.0 == key) ≡ true) (ok-injective k) e

pub from-token :
    (c : ℕ × List Fact) (key : ℕ)
    → (c.0 == key) ≡ true
    → tokens.from (c.0 ∷ facts_bytes c.1) key ≡ ok c
from-token c key e =
    let n = facts_of-facts_bytes c.1 (suc (length (facts_bytes c.1))) (bound c.1) in rw (e, n) refl
  where
    bound : (fs : List Fact) → length fs < suc (length (facts_bytes fs))
    bound fs = omega (arith, length-facts_bytes fs)

abbrev pub tokens_laws : IsLawful tokens
tokens_laws = record {
  facts = λ b. b.1;
  parse_binary = λ p id literal v h. rw h refl;
  facts-append = λ b c fs h. ap (λ x. x.1) (sym (ok-injective h));
  from-to_vec = λ token new key b c fs h k l.
      let e : c.0 ≡ b.0 = ap (λ x. x.0) (sym (ok-injective k)) in
      let v = subst (λ n. (n == key) ≡ true) (sym e) (from-key token key b h) in
      (c, subst (λ t. tokens.from t key ≡ ok c) (ok-injective l) (from-token c key v), refl);
  authorizes = λ b. (b.1, refl);
  answers_unary = λ b a n p h. (
    unary_values p a,
    refl,
    λ v.
        subst (λ us. In v (unary_values p us) ↔ In (unary p v) b.1) (ok-injective h)
          (unary_values_iff p v b.1),
  );
  answers_binary = λ b a n p h. (
    binary_values p a,
    refl,
    λ id v.
        subst (λ us. In (id, v) (binary_values p us) ↔ In (binary p id v) b.1) (ok-injective h)
          (binary_values_iff p id v b.1),
  );
}

unescape-plain :
    (u : Uuid) → unescape_from false (plain_uuid.to_string u) ≡ some (plain_uuid.to_string u)
unfolding unescape_from
unescape-plain [] = refl
unescape-plain (n ∷ u) = ground (arith, unescape-plain u)

parse-plain : (u : Uuid) → map (λ n. n - 93) (plain_uuid.to_string u) ≡ u
parse-plain [] = refl
parse-plain (n ∷ u) = let e : n + 93 - 93 ≡ n = omega arith in rw (e, parse-plain u) refl

pub plain_uuid-IsPrinted : IsPrinted clock plain_uuid
unfolding unescape
plain_uuid-IsPrinted = record {
  parse-to_rfc3339 = λ t. refl;
  parse-to_string = λ u. ap some (parse-plain u);
  plain = unescape-plain;
}

==_refl : (n : ℕ) → (n == n) ≡ true
==_refl n = ground arith

-- What a token is built of is in it.
pub tokens-IsBuilt : IsBuilt tokens tokens_laws
tokens-IsBuilt = record {
  parse_unary = λ p literal v h. rw h refl;
  from-build = λ fs keypair b token h k.
      let v : (b.0 == keypair) ≡ true =
        subst (λ (c : ℕ × List Fact). (c.0 == keypair) ≡ true) (ok-injective h) (==_refl keypair) in
      (
        b,
        subst (λ s. tokens.from s keypair ≡ ok b) (ok-injective k) (from-token b keypair v),
        ap (λ (c : ℕ × List Fact). c.1) (sym (ok-injective h)),
      );
  from_bytes-to_bytes = λ k. refl;
}
