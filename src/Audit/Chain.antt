-- ===== src/Audit/Chain.antt =====
-- `verify_chain` accepts exactly the unbroken chains, and names the first entry at fault.
use attenuate_agent.Prelude.{
  ℕ, suc, ◌+◌, true, Option, none, some, List, [], ◌∷◌, ◌++◌, Text, text_eq, text_eq→eq,
  text_eq_refl, ok, err, >>=-eq-ok, ◌≡◌, refl, sym, subst, ◌↔◌, inl, inr, arith, length, Bool-cases,
  Result-cases, ap, ◌∙◌,
}
use attenuate_agent.External.{Chrono}
use attenuate_agent.Audit.{
  AuditEntry, AuditError, broken_chain, hash_mismatch, hash_entry_fields, check_entry, continues,
  verify_from, verify_chain,
}

-- An entry carries the hash of the one before it, where there is one.
abbrev pub Follows : Option AuditEntry → AuditEntry → Type 0
Follows none e = Unit
Follows (some p) e = e.previous_hash ≡ p.entry_hash

-- The entry before the end of a log that continues `p`.
abbrev pub last_from : Option AuditEntry → List AuditEntry → Option AuditEntry
last_from p [] = p
last_from p (e ∷ es) = last_from (some e) es

pub last_from-append :
    (p : Option AuditEntry) (es : List AuditEntry) (e : AuditEntry)
    → last_from p (es ++ (e ∷ [])) ≡ some e
last_from-append p [] e = refl
last_from-append p (d ∷ es) e = last_from-append (some d) es e

-- The index that an error names.
abbrev pub fault : AuditError → ℕ
fault (broken_chain i) = i
fault (hash_mismatch i) = i

module _ (ch : Chrono) (hash : Text → Text) where
  -- The hash of an entry is that of its own fields.
  abbrev pub IsHashed : AuditEntry → Type 0
  IsHashed e = e.entry_hash ≡ hash_entry_fields ch hash e.id e.timestamp e.event e.previous_hash

  abbrev pub IsChain : Option AuditEntry → List AuditEntry → Type 0
  IsChain p [] = Unit
  IsChain p (e ∷ es) = IsHashed e × Follows p e × IsChain (some e) es

  pub check_entry→IsHashed :
      (p : Option AuditEntry) (e : AuditEntry) (i : ℕ)
      → check_entry ch hash p e i ≡ ok tt
      → IsHashed e × Follows p e
  unfolding check_entry
  check_entry→IsHashed p e i h =
      elim (Bool-cases (
        text_eq e.entry_hash
          (hash_entry_fields ch hash e.id e.timestamp e.event e.previous_hash))) [
            | inl q ↦ (text_eq→eq _ _ q, follows p (rw q at h))
            | inr q ↦ absurd (ground arith)
          ]
    where
      follows : (p : Option AuditEntry) → continues ch hash p e i ≡ ok tt → Follows p e
      follows none k = tt
      follows (some b) k = ground (arith, text_eq→eq e.previous_hash b.entry_hash)

  text_eq_of_eq : (s t : Text) → s ≡ t → text_eq s t ≡ true
  text_eq_of_eq s t e = subst (λ u. text_eq s u ≡ true) e (text_eq_refl s)

  pub IsHashed→check_entry :
      (p : Option AuditEntry) (e : AuditEntry) (i : ℕ)
      → IsHashed e
      → Follows p e
      → check_entry ch hash p e i ≡ ok tt
  unfolding check_entry
  IsHashed→check_entry none e i h f =
      let q =
        text_eq_of_eq e.entry_hash
          (hash_entry_fields ch hash e.id e.timestamp e.event e.previous_hash) h in
      ground arith
  IsHashed→check_entry (some p) e i h f =
      let q =
        text_eq_of_eq e.entry_hash
          (hash_entry_fields ch hash e.id e.timestamp e.event e.previous_hash) h in
      let r = text_eq_of_eq e.previous_hash p.entry_hash f in ground arith

  pub verify_from→IsChain :
      (i : ℕ) (p : Option AuditEntry) (es : List AuditEntry)
      → verify_from ch hash i p es ≡ ok tt
      → IsChain p es
  unfolding verify_from
  verify_from→IsChain i p [] h = tt
  verify_from→IsChain i p (e ∷ es) h =
      let (u, q, h') = >>=-eq-ok (check_entry ch hash p e i) _ h in
      let (a, b) = check_entry→IsHashed p e i q in
      (a, b, verify_from→IsChain (suc i) (some e) es h')

  pub IsChain→verify_from :
      (i : ℕ) (p : Option AuditEntry) (es : List AuditEntry)
      → IsChain p es
      → verify_from ch hash i p es ≡ ok tt
  unfolding verify_from
  IsChain→verify_from i p [] h = refl
  IsChain→verify_from i p (e ∷ es) (a, b, c) =
      rw (IsHashed→check_entry p e i a b) (IsChain→verify_from (suc i) (some e) es c)

  -- `verify_chain` accepts a log exactly when every entry's hash is that of its own fields and every
  -- entry but the first carries the hash of the entry before it.
  pub verify_chain_iff :
      (entries : List AuditEntry) → (verify_chain ch hash entries ≡ ok tt) ↔ IsChain none entries
  unfolding verify_chain
  verify_chain_iff entries =
      (verify_from→IsChain 0 none entries, IsChain→verify_from 0 none entries)

  pub IsChain-append :
      (p : Option AuditEntry) (es : List AuditEntry) (e : AuditEntry)
      → IsChain p es
      → IsHashed e
      → Follows (last_from p es) e
      → IsChain p (es ++ (e ∷ []))
  IsChain-append p [] e c h f = (h, f, tt)
  IsChain-append p (d ∷ es) e (a, b, c) h f = (a, b, IsChain-append (some d) es e c h f)

  -- The entry that an error is about: the prefix before it is a chain, and it does not continue it.
  pub record FaultAt (p : Option AuditEntry) (es : List AuditEntry) (i : ℕ) (x : AuditError)
      : Type 0 where
    pub before : List AuditEntry
    pub entry : AuditEntry
    pub after : List AuditEntry
    pub split : es ≡ before ++ (entry ∷ after)
    pub index : fault x ≡ i + length before
    pub intact : IsChain p before
    pub broken : (IsHashed entry × Follows (last_from p before) entry) → ⊥

  check_entry-fault :
      (p : Option AuditEntry) (e : AuditEntry) (i : ℕ) {x : AuditError}
      → check_entry ch hash p e i ≡ err x
      → fault x ≡ i
  unfolding check_entry
  check_entry-fault none e i h = ground arith
  check_entry-fault (some p) e i h = ground arith

  verify_from-FaultAt :
      (i : ℕ) (p : Option AuditEntry) (es : List AuditEntry) {x : AuditError}
      → verify_from ch hash i p es ≡ err x
      → FaultAt p es i x
  unfolding verify_from
  verify_from-FaultAt i p [] h = absurd (ground arith)
  verify_from-FaultAt i p (e ∷ es) {x} h = elim (Result-cases (check_entry ch hash p e i)) [
    | inl (u, q) ↦
        let r = verify_from-FaultAt (suc i) (some e) es {x = x} (rw q at h) in
        let (a, b) = check_entry→IsHashed p e i q in
        record {
          before = e ∷ r.before;
          entry = r.entry;
          after = r.after;
          split = ap (λ l. e ∷ l) r.split;
          index = omega (arith, r.index);
          intact = (a, b, r.intact);
          broken = r.broken;
        }
    | inr (inl (y, q)) ↦ record {
      before = [];
      entry = e;
      after = es;
      split = refl;
      index = omega (arith, check_entry-fault p e i (q ∙ sym (sym h ∙ rw q)));
      intact = tt;
      broken = λ (a, b). cc (IsHashed→check_entry p e i a b);
    }
    | inr (inr q) ↦ absurd (ground arith)
  ]

  -- When `verify_chain` reports an error, the entries before the index that the error names form an
  -- unbroken chain, and the entry at that index has a wrong hash or does not continue them.
  pub verify_chain-FaultAt :
      (entries : List AuditEntry) {x : AuditError}
      → verify_chain ch hash entries ≡ err x
      → FaultAt none entries 0 x
  unfolding verify_chain
  verify_chain-FaultAt entries h = verify_from-FaultAt 0 none entries h
