-- ===== src/Capability/Minting.antt =====
-- The token that `RootCapability::mint` of capability/src/lib.rs makes.
use attenuate_agent.Prelude.{
  none, some, List, ◌∷◌, In, Text, text, ok, >>=-eq-ok, ok-injective, map_err, map_err-eq-ok, false,
  ◌≡◌, refl, sym, ◌∙◌, subst, inl, inr, arith,
}
use attenuate_agent.Prelude.Int.{ℤ, pos, leb_ℤ}
use attenuate_agent.External.{
  Uuid, DateTime, FileSystem, Chrono, UuidText, Fact, unary, binary, BiscuitAuth,
}
use attenuate_agent.Manifest
use attenuate_agent.Manifest.{TaskManifest}
use attenuate_agent.Capability.Data.{PermissionSet, RootCapability, invalid_manifest}
use attenuate_agent.Capability.Lifetime.{checked_expires_at}
use attenuate_agent.Capability.Permissions.{from_manifest}
use attenuate_agent.Capability.Codec.{
  biscuit, add_facts, state_facts, task_id_source, build_root_token,
}
use attenuate_agent.Capability.Codec.Facts.{IsLawful, block, add_facts-block}
use attenuate_agent.Capability.Codec.Texts.{unescape}
use attenuate_agent.Capability.Codec.Columns.{block-id, block-unary}
use attenuate_agent.Capability.Codec.Roundtrip.{IsPrinted, IsOlder}
use attenuate_agent.Capability.Token.{parse_public_key, from_codec, mint}

-- What is relied on of biscuit-auth where a token begins: a unary fact is parsed to what its source
-- says, a token that is built and serialized verifies under the public key of its key pair and has the
-- facts that it was built of, and a public key is read from its bytes.
pub record IsBuilt (bis : BiscuitAuth) (L : IsLawful bis) : Type 0 where
  pub parse_unary :
      (p literal v : Text)
      → unescape literal ≡ some v
      → bis.parse_fact (record { predicate = p; block_id = none; literal = literal })
        ≡ ok (unary p v)
  pub from-build :
      (fs : List Fact) (keypair : bis.KeyPair) (b : bis.Biscuit) (token : Text)
      → bis.build fs keypair ≡ ok b
      → bis.to_vec b ≡ ok token
      → (d : bis.Biscuit) × (bis.from token (bis.public keypair) ≡ ok d) × (L.facts d ≡ fs)
  pub from_bytes-to_bytes : (k : bis.PublicKey) → bis.from_bytes (bis.to_bytes k) ≡ ok k

module _ (ch : Chrono) (ids : UuidText) (bis : BiscuitAuth) (L : IsLawful bis) (B : IsBuilt bis L)
    (printed : IsPrinted ch ids) where
  -- The facts of a new token.
  abbrev root_facts : Uuid → PermissionSet → DateTime → List Fact
  root_facts task_id p t =
      unary (text "task_id") (ids.to_string task_id) ∷ block ch ids (pos 0) p t none

  root_facts-IsOlder :
      (task_id : Uuid) (p : PermissionSet) (t : DateTime)
      → IsOlder (pos 1) (ids.to_string task_id) (root_facts task_id p t)
  unfolding leb_ℤ
  root_facts-IsOlder task_id p t = record { below = below; named = inl refl; only = only }
    where
      below :
          (q : Text) (i : ℤ) (v : Text)
          → In (binary q i v) (root_facts task_id p t)
          → leb_ℤ (pos 1) i ≡ false
      below q i v (inl e) = absurd (ground arith)
      below q i v (inr k) =
          subst (λ j. leb_ℤ (pos 1) j ≡ false) (sym (block-id ch ids (pos 0) p t none i q v k)) refl

      only :
          (v : Text)
          → In (unary (text "task_id") v) (root_facts task_id p t)
          → v ≡ ids.to_string task_id
      only v (inl e) = cc
      only v (inr k) = absurd (block-unary ch ids (pos 0) p t none (text "task_id") v k)

  build_root_token-IsOlder :
      (task_id : Uuid) (p : PermissionSet) (t : DateTime) (keypair : bis.KeyPair) (token : Text)
      → build_root_token bis ch ids task_id p t keypair ≡ ok token
      → (old : bis.Biscuit) × (bis.from token (bis.public keypair) ≡ ok old)
        × IsOlder (pos 1) (ids.to_string task_id) (L.facts old)
  unfolding build_root_token add_facts task_id_source
  build_root_token-IsOlder task_id p t keypair token h =
      let (fs, e, h₁) =
        >>=-eq-ok
          (add_facts bis (task_id_source bis ch ids task_id ∷ state_facts ch ids (pos 0) p t none))
          _ h in
      let (b, f, h₂) = >>=-eq-ok (map_err biscuit (bis.build fs keypair)) _ h₁ in
      let known : fs ≡ root_facts task_id p t = ok-injective (
        sym e
        ∙ rw
            (
              B.parse_unary (text "task_id") (ids.to_string task_id) (ids.to_string task_id)
                  (printed.plain task_id),
              add_facts-block bis L ch ids printed.plain (pos 0) p t none tt,
            )
            refl) in
      let (d, v, same) =
        B.from-build fs keypair b token (map_err-eq-ok _ _ f) (map_err-eq-ok _ _ h₂) in
      (
        d,
        v,
        subst (λ us. IsOlder (pos 1) (ids.to_string task_id) us) (sym (same ∙ known))
            (root_facts-IsOlder task_id p t),
      )

  -- A minted root's token verifies under its key, names the task of the manifest, and has older
  -- blocks than any child's.
  pub mint-IsOlder :
      (fs : FileSystem) (keypair : bis.KeyPair) (manifest : TaskManifest) (now : DateTime)
      {root : RootCapability}
      → mint fs ch ids bis keypair manifest now ≡ ok root
      → (parse_public_key bis root.root_public_key ≡ ok (bis.public keypair))
        × (old : bis.Biscuit) × (bis.from root.token (bis.public keypair) ≡ ok old)
        × IsOlder (pos 1) (ids.to_string manifest.task_id) (L.facts old)
  unfolding mint parse_public_key
  mint-IsOlder fs keypair manifest now {root} h =
      let (u, e₁, h₁) = >>=-eq-ok (map_err invalid_manifest (Manifest.validate manifest)) _ h in
      let (t, e₂, h₂) = >>=-eq-ok (checked_expires_at ch now manifest.ttl_seconds) _ h₁ in
      let (p, e₃, h₃) = >>=-eq-ok (from_manifest fs manifest) _ h₂ in
      let (token, e₄, h₄) =
        >>=-eq-ok (from_codec (build_root_token bis ch ids manifest.task_id p t keypair)) _ h₃ in
      let (old, v, older) =
        build_root_token-IsOlder manifest.task_id p t keypair token (map_err-eq-ok _ _ e₄) in
      subst
        (λ (r : RootCapability).
          (parse_public_key bis r.root_public_key ≡ ok (bis.public keypair))
          × (old : bis.Biscuit) × (bis.from r.token (bis.public keypair) ≡ ok old)
          × IsOlder (pos 1) (ids.to_string manifest.task_id) (L.facts old))
        (ok-injective h₄) (rw (B.from_bytes-to_bytes (bis.public keypair)) refl, old, v, older)
