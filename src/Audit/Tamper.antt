-- ===== src/Audit/Tamper.antt =====
-- Tamper evidence: the last hash of a verified log determines the whole log.
use attenuate_agent.Prelude.{
  In, inl, inr, Option, none, some, List, [], ◌∷◌, Text, ok, ◌≡◌, refl, sym, arith, length, ap, ◌∙◌,
}
use attenuate_agent.External.{Chrono}
use attenuate_agent.Audit.{AuditEntry, entry_bytes, hash_entry_fields, verify_chain}
use attenuate_agent.Audit.Bytes.{IsLawful, IsSized, entry_bytes-injective}
use attenuate_agent.Audit.Chain.{IsHashed, IsChain, verify_chain_iff}

-- The sizes that the Rust types guarantee of every entry.
abbrev pub AllSized : List AuditEntry → Type 0
AllSized [] = Unit
AllSized (e ∷ es) = (length e.id ≡ 16) × IsSized e.event × AllSized es

-- The hash of the last entry of a log, or `h` for the empty one.
abbrev pub last_hash : Text → List AuditEntry → Text
last_hash h [] = h
last_hash h (e ∷ es) = last_hash e.entry_hash es

-- What is hashed for an entry of the first log does not collide with what is for one of the second.
abbrev pub IsApart : Chrono → (Text → Text) → List AuditEntry → List AuditEntry → Type 0
IsApart ch hash es fs =
    (e f : AuditEntry)
    → In e es
    → In f fs
    → hash (entry_bytes ch e.id e.timestamp e.event e.previous_hash)
      ≡ hash (entry_bytes ch f.id f.timestamp f.event f.previous_hash)
    → entry_bytes ch e.id e.timestamp e.event e.previous_hash
      ≡ entry_bytes ch f.id f.timestamp f.event f.previous_hash

module _ (ch : Chrono) (L : IsLawful ch) (hash : Text → Text) where
  hashed-injective :
      (e f : AuditEntry)
      → (hash (entry_bytes ch e.id e.timestamp e.event e.previous_hash)
            ≡ hash (entry_bytes ch f.id f.timestamp f.event f.previous_hash)
          → entry_bytes ch e.id e.timestamp e.event e.previous_hash
            ≡ entry_bytes ch f.id f.timestamp f.event f.previous_hash)
      → IsHashed ch hash e
      → IsHashed ch hash f
      → length e.id ≡ 16
      → length f.id ≡ 16
      → IsSized e.event
      → IsSized f.event
      → e.entry_hash ≡ f.entry_hash
      → e ≡ f
  unfolding hash_entry_fields
  hashed-injective e f apart he hf le lf se sf same =
      let b = apart (sym he ∙ same ∙ hf) in
      let (p, q, r, s) =
        entry_bytes-injective ch L e.id f.id e.timestamp f.timestamp e.event f.event e.previous_hash
          f.previous_hash le lf se sf b in
      λ i. record {
        id = p i;
        timestamp = q i;
        event = r i;
        previous_hash = s i;
        entry_hash = same i;
      }

  same_log :
      (p q : Option AuditEntry) (h k : Text) (es fs : List AuditEntry)
      → IsApart ch hash es fs
      → IsChain ch hash p es
      → IsChain ch hash q fs
      → AllSized es
      → AllSized fs
      → length es ≡ length fs
      → last_hash h es ≡ last_hash k fs
      → es ≡ fs
  same_log p q h k [] [] apart c d s t l e = refl
  same_log p q h k [] (f ∷ fs) apart c d s t l e = absurd (omega arith)
  same_log p q h k (e ∷ es) [] apart c d s t l same = absurd (omega arith)
  same_log p q h k (e ∷ []) (f ∷ []) apart c d s t l same =
      ap (λ x. x ∷ [])
        (hashed-injective e f (apart e f (inl refl) (inl refl)) c.0 d.0 s.0 t.0 s.1 t.1 same)
  same_log p q h k (e ∷ []) (f ∷ g ∷ fs) apart c d s t l same = absurd (omega arith)
  same_log p q h k (e ∷ g ∷ es) (f ∷ []) apart c d s t l same = absurd (omega arith)
  same_log p q h k (e ∷ g ∷ es) (f ∷ g' ∷ fs) apart c d s t l same =
      let rest =
        same_log (some e) (some f) e.entry_hash f.entry_hash (g ∷ es) (g' ∷ fs)
          (λ x y i j. apart x y (inr i) (inr j)) c.2 d.2 s.2 t.2 (omega arith) same in
      let heads : g ≡ g' = cc in
      let first =
        hashed-injective e f (apart e f (inl refl) (inl refl)) c.0 d.0 s.0 t.0 s.1 t.1
          (sym c.2.1 ∙ ap (λ (x : AuditEntry). x.previous_hash) heads ∙ d.2.1) in
      cc

  -- Two logs of the same length whose entries have the sizes that their types guarantee, which
  -- `verify_chain` both accepts, and which end in the same hash, are the same log, entry for entry:
  -- no entry can be changed or moved without changing the last hash. The hashes
  -- of an entry of one log and an entry of the other are taken not to collide.
  pub verify_chain-tamper_evident :
      (es fs : List AuditEntry)
      → IsApart ch hash es fs
      → verify_chain ch hash es ≡ ok tt
      → verify_chain ch hash fs ≡ ok tt
      → AllSized es
      → AllSized fs
      → length es ≡ length fs
      → last_hash [] es ≡ last_hash [] fs
      → es ≡ fs
  verify_chain-tamper_evident es fs apart v w s t l same =
      same_log none none [] [] es fs apart ((verify_chain_iff ch hash es).0 v)
        ((verify_chain_iff ch hash fs).0 w) s t l same
