-- ===== src/Capability/Derivation.antt =====
-- What a successful `attenuate` has done, and that capabilities derived from a root only narrow it.
use attenuate_agent.Prelude.{
  ◌+◌, ◌≤◌, Text, ok, >>=-eq-ok, ok-injective, subst, sym, ◌∙◌, ◌≡◌, refl, arith, length,
}
use attenuate_agent.Prelude.Int.{ℤ, pos}
use attenuate_agent.External.{DateTime, FileSystem, Chrono, UuidText, BiscuitAuth}
use attenuate_agent.Capability.Data.{
  PermissionSet, AttenuationRequest, RootCapability, ChildCapability,
}
use attenuate_agent.Capability.Lifetime.{checked_expires_at, validate_attenuation}
use attenuate_agent.Capability.Codec.{append_block}
use attenuate_agent.Capability.Token.{
  parse_public_key, from_codec, requested_permissions, attenuate_root, attenuate_child,
}
use attenuate_agent.Capability.Narrowing.{
  Narrows, Narrows-trans, validate_attenuation-Passed, requested_permissions-Narrows,
}

-- What a child has of its parent: no right that the parent lacks, and no longer life.
pub record IsNarrowed (parent : PermissionSet) (limit : DateTime) (child : ChildCapability)
    : Type 0 where
  pub rights : Narrows child.permissions parent
  pub lifetime : child.expires_at ≤ limit

module _ (fs : FileSystem) (ch : Chrono) (ids : UuidText) (bis : BiscuitAuth) where
  -- What an `attenuate` method has done when it succeeds: from the parent's permissions, expiry,
  -- token and key, with the id of the new block.
  pub record Attenuated (parent : PermissionSet) (limit : DateTime) (token key_bytes : Text)
      (id : ℤ) (request : AttenuationRequest) (now : DateTime) (c : ChildCapability) : Type 0 where
    pub validated : validate_attenuation fs ch parent limit request now ≡ ok tt
    pub lifetime : checked_expires_at ch now request.ttl_seconds ≡ ok c.expires_at
    pub built : requested_permissions fs request ≡ ok c.permissions
    pub key : bis.PublicKey
    pub parsed : parse_public_key bis key_bytes ≡ ok key
    pub appended :
        from_codec
          (append_block bis ch ids token key id c.permissions c.expires_at request.request_binding)
        ≡ ok c.token
    pub same_key : c.root_public_key ≡ key_bytes

  pub attenuate_root-Attenuated :
      (root : RootCapability) (request : AttenuationRequest) (now : DateTime) {c : ChildCapability}
      → attenuate_root fs ch ids bis root request now ≡ ok c
      → Attenuated root.permissions root.expires_at root.token root.root_public_key
          (pos 1)
          request
          now
          c
  unfolding attenuate_root
  attenuate_root-Attenuated root request now {c} h =
      let (u, e₁, h₁) =
        >>=-eq-ok (validate_attenuation fs ch root.permissions root.expires_at request now) _ h in
      let (t, e₂, h₂) = >>=-eq-ok (checked_expires_at ch now request.ttl_seconds) _ h₁ in
      let (p, e₃, h₃) = >>=-eq-ok (requested_permissions fs request) _ h₂ in
      let (k, e₄, h₄) = >>=-eq-ok (parse_public_key bis root.root_public_key) _ h₃ in
      let (v, e₅, h₅) =
        >>=-eq-ok
          (from_codec (append_block bis ch ids root.token k (pos 1) p t request.request_binding)) _
          h₄ in
      subst
        (λ d.
          Attenuated root.permissions root.expires_at root.token root.root_public_key (pos 1)
            request now d)
        (ok-injective h₅)
        (record {
          validated = e₁;
          lifetime = e₂;
          built = e₃;
          key = k;
          parsed = e₄;
          appended = e₅;
          same_key = refl;
        })

  pub attenuate_child-Attenuated :
      (child : ChildCapability) (request : AttenuationRequest) (now : DateTime)
      {c : ChildCapability}
      → attenuate_child fs ch ids bis child request now ≡ ok c
      → Attenuated child.permissions child.expires_at child.token child.root_public_key
          (pos (length child.caveats + 1))
          request
          now
          c
  unfolding attenuate_child
  attenuate_child-Attenuated child request now {c} h =
      let id = pos (length child.caveats + 1) in
      let (u, e₁, h₁) =
        >>=-eq-ok (validate_attenuation fs ch child.permissions child.expires_at request now) _ h in
      let (t, e₂, h₂) = >>=-eq-ok (checked_expires_at ch now request.ttl_seconds) _ h₁ in
      let (p, e₃, h₃) = >>=-eq-ok (requested_permissions fs request) _ h₂ in
      let (k, e₄, h₄) = >>=-eq-ok (parse_public_key bis child.root_public_key) _ h₃ in
      let (v, e₅, h₅) =
        >>=-eq-ok
          (from_codec (append_block bis ch ids child.token k id p t request.request_binding)) _
          h₄ in
      subst
        (λ d.
          Attenuated child.permissions child.expires_at child.token child.root_public_key id request
            now d)
        (ok-injective h₅)
        (record {
          validated = e₁;
          lifetime = e₂;
          built = e₃;
          key = k;
          parsed = e₄;
          appended = e₅;
          same_key = refl;
        })

  pub Attenuated-IsNarrowed :
      {parent : PermissionSet} {limit : DateTime} {token key_bytes : Text} {id : ℤ}
      {request : AttenuationRequest} {now : DateTime} {c : ChildCapability}
      → Attenuated parent limit token key_bytes id request now c
      → IsNarrowed parent limit c
  Attenuated-IsNarrowed {parent} {limit} {request = request} {now = now} {c = c} a =
      let passed = validate_attenuation-Passed fs ch parent limit request now a.validated in
      record {
        rights =
            requested_permissions-Narrows fs ch parent c.permissions limit request now passed
              a.built;
        lifetime =
            subst (λ t. t ≤ limit) (ok-injective (sym passed.lifetime ∙ a.lifetime)) passed.bounded;
      }

module _ (ch : Chrono) (ids : UuidText) (bis : BiscuitAuth) where
  -- Capabilities that are derived from a root by attenuations, each by any request, at any time and
  -- any state of the files.
  pub data Derived (root : RootCapability) : ChildCapability → Type 0 where
    first :
        (fs : FileSystem) (request : AttenuationRequest) (now : DateTime) {c : ChildCapability}
        → attenuate_root fs ch ids bis root request now ≡ ok c
        → Derived root c
    again :
        {c : ChildCapability} (fs : FileSystem) (request : AttenuationRequest) (now : DateTime)
        {d : ChildCapability}
        → Derived root c
        → attenuate_child fs ch ids bis c request now ≡ ok d
        → Derived root d

  -- Whatever the requests and their times, a capability that is derived from a root by any number of
  -- attenuations allows no read, write or execution that the root's permissions do not allow, at any
  -- state of the file system at which a path is then resolved, and does not outlive the root. The
  -- files may change between two attenuations; during one they are taken not to.
  pub Derived-IsNarrowed :
      (root : RootCapability) {c : ChildCapability}
      → Derived root c
      → IsNarrowed root.permissions root.expires_at c
  Derived-IsNarrowed root (first fs request now e) =
      Attenuated-IsNarrowed fs ch ids bis
        (attenuate_root-Attenuated fs ch ids bis root request now e)
  Derived-IsNarrowed root {c = d} (again {c} fs request now before e) =
      let a =
        Attenuated-IsNarrowed fs ch ids bis
          (attenuate_child-Attenuated fs ch ids bis c request now e) in
      let b = Derived-IsNarrowed root before in
      record {
        rights = Narrows-trans d.permissions c.permissions root.permissions a.rights b.rights;
        lifetime = omega (arith, a.lifetime, b.lifetime);
      }
