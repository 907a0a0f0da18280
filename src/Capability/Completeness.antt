-- ===== src/Capability/Completeness.antt =====
-- Whether a child that `attenuate` has made passes `verify_and_decode` (capability/src/lib.rs).
use attenuate_agent.Prelude.{
  ◌+◌, true, Option, none, some, List, [], ◌∷◌, ◌++◌, reverse, ok, >>=-eq-ok, ok-injective,
  map_err-eq-ok, length, ◌≡◌, refl, sym, ◌∙◌, ap, subst,
}
use mathlib.Core.List.{reverse-append}
use attenuate_agent.Prelude.Int.{pos}
use attenuate_agent.External.{Uuid, DateTime, FileSystem, Chrono, UuidText, BiscuitAuth}
use attenuate_agent.Capability.Data.{
  RequestBinding, AttenuationRequest, Caveat, ChildCapability, VerifiedState,
}
use attenuate_agent.Capability.Lifetime.{checked_expires_at, validate_attenuation}
use attenuate_agent.Capability.Codec.{append_block}
use attenuate_agent.Capability.Codec.Facts.{IsLawful, HasHash}
use attenuate_agent.Capability.Codec.Roundtrip.{
  IsPrinted, IsOlder, IsBlock, decode_state-append_block,
}
use attenuate_agent.Capability.Codec.Decode.{DecodedState, decode_state}
use attenuate_agent.Capability.Derivation.{attenuate_child-Attenuated}
use attenuate_agent.Capability.Token.{
  parse_public_key, from_codec, find_binding, request_binding, permissions_eq,
  requested_permissions, attenuate_child,
}

-- The binding that a struct shows when its last caveat has `b` and the caveats before it show `before`.
abbrev pub shown : Option RequestBinding → Option RequestBinding → Option RequestBinding
shown (some b) before = some b
shown none before = before

find_binding-last :
    (cs : List Caveat) (c : Caveat)
    → find_binding (reverse (cs ++ (c ∷ []))) ≡ shown c.request_binding (find_binding (reverse cs))
unfolding find_binding
find_binding-last cs c = ap find_binding (reverse-append cs (c ∷ [])) ∙ last_of c.request_binding
  where
    last_of :
        (o : Option RequestBinding)
        → (elim o [ some b ↦ some b | none ↦ find_binding (reverse cs) ])
          ≡ shown o (find_binding (reverse cs))
    last_of none = refl
    last_of (some b) = refl

-- The decoded state of a capability that was just attenuated with the binding `b`.
pub record Fresh (task_id : Uuid) (b : Option RequestBinding) (c : ChildCapability)
    (s : VerifiedState) : Type 0 where
  pub task : s.task_id ≡ task_id
  pub rights : permissions_eq s.permissions c.permissions ≡ true
  pub expiry : s.expires_at ≡ c.expires_at
  pub binding : s.request_binding ≡ b

module _ (fs : FileSystem) (ch : Chrono) (ids : UuidText) (bis : BiscuitAuth) where
  pub request_binding-attenuate_child :
      (child : ChildCapability) (request : AttenuationRequest) (now : DateTime)
      {c : ChildCapability}
      → attenuate_child fs ch ids bis child request now ≡ ok c
      → request_binding c ≡ shown request.request_binding (request_binding child)
  unfolding attenuate_child request_binding
  request_binding-attenuate_child child request now {c} h =
      let (u, e₁, h₁) =
        >>=-eq-ok (validate_attenuation fs ch child.permissions child.expires_at request now) _ h in
      let (t, e₂, h₂) = >>=-eq-ok (checked_expires_at ch now request.ttl_seconds) _ h₁ in
      let (p, e₃, h₃) = >>=-eq-ok (requested_permissions fs request) _ h₂ in
      let (k, e₄, h₄) = >>=-eq-ok (parse_public_key bis child.root_public_key) _ h₃ in
      let (v, e₅, h₅) =
        >>=-eq-ok
          (from_codec (
            append_block bis ch ids child.token k (pos (length child.caveats + 1)) p t
              request.request_binding))
          _ h₄ in
      subst
        (λ (d : ChildCapability).
          find_binding (reverse d.caveats)
          ≡ shown request.request_binding (find_binding (reverse child.caveats)))
        (ok-injective h₅)
        (find_binding-last child.caveats
          (record { permissions = p; expires_at = t; request_binding = request.request_binding }))

  module _ (L : IsLawful bis) (printed : IsPrinted ch ids) where
    pub decoded-Fresh :
        (child : ChildCapability) (request : AttenuationRequest) (now : DateTime) (task_id : Uuid)
        (key : bis.PublicKey) (old : bis.Biscuit) {c : ChildCapability}
        → parse_public_key bis child.root_public_key ≡ ok key
        → bis.from child.token key ≡ ok old
        → IsOlder (pos (length child.caveats + 1)) (ids.to_string task_id) (L.facts old)
        → HasHash request.request_binding
        → attenuate_child fs ch ids bis child request now ≡ ok c
        → (d : DecodedState) × (parse_public_key bis c.root_public_key ≡ ok key)
          × (decode_state bis ch ids c.token key ≡ ok d)
          × IsBlock task_id
              (pos (length child.caveats + 1))
              c.permissions
              c.expires_at
              request.request_binding
              d
    decoded-Fresh child request now task_id key old {c} parsed verified older hashed h =
        let a = attenuate_child-Attenuated fs ch ids bis child request now h in
        let same_key : a.key ≡ key = ok-injective (sym a.parsed ∙ parsed) in
        let appended =
          subst
            (λ k.
              append_block bis ch ids child.token k (pos (length child.caveats + 1)) c.permissions
                c.expires_at request.request_binding
              ≡ ok c.token)
            same_key (map_err-eq-ok _ _ a.appended) in
        let (d, e, block) =
          decode_state-append_block ch ids bis L printed child.token c.token key
            (pos (length child.caveats + 1)) task_id c.permissions c.expires_at
            request.request_binding old verified older hashed appended in
        (d, subst (λ k. parse_public_key bis k ≡ ok key) (sym a.same_key) parsed, e, block)
