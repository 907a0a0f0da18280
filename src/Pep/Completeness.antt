-- ===== src/Pep/Completeness.antt =====
-- Whether `verify` of pep/src/lib.rs accepts a child that was just attenuated.
use attenuate_agent.Prelude.{
  ◌+◌, ◌<◌, Text, true, ◌==◌, ==_iff, Option, none, some, ok, err, length, ◌≡◌, refl, sym, ◌∙◌, ap,
  subst,
}
use attenuate_agent.Prelude.Int.{ℤ, pos}
use attenuate_agent.External.{Uuid, DateTime, FileSystem, Chrono, UuidText, BiscuitAuth}
use attenuate_agent.Capability.Data.{
  RequestBinding, AttenuationRequest, RootCapability, ChildCapability, VerifiedState,
}
use attenuate_agent.Capability.Codec.Facts.{IsLawful, HasHash}
use attenuate_agent.Capability.Codec.Roundtrip.{
  IsPrinted, IsOlder, IsBlock, decode_state-append_block,
}
use attenuate_agent.Capability.Completeness.{
  shown, request_binding-attenuate_child, Fresh, decoded-Fresh,
}
use attenuate_agent.Capability.Codec.{append_block}
use attenuate_agent.Capability.Codec.Decode.{DecodedState, decode_state}
use attenuate_agent.Capability.Issuance.{issued}
use attenuate_agent.Capability.Token.{
  parse_public_key, find_binding, request_binding, optional_binding_eq, attenuate_child,
  verify_and_decode,
}
use attenuate_agent.Pep.Messages.{state_tampered}
use attenuate_agent.Capability.Bindings.{optional_binding_eq_refl}
use attenuate_agent.Pep.Soundness.{Bound, verify-decoded_iff}
use attenuate_agent.Pep.Verify.{VerifiedCapability, verify, from_capability_error}

shown-same : (r before : Option RequestBinding) → (r ≡ none → before ≡ none) → shown r before ≡ r
shown-same none before h = h refl
shown-same (some b) before h = refl

-- A capability whose token decodes to a block with what its struct shows is accepted until it expires.
pub verify-IsBlock :
    (ch : Chrono) (ids : UuidText) (bis : BiscuitAuth) (c : ChildCapability) (d : DecodedState)
    (key : bis.PublicKey) (task_id : Uuid) (id : ℤ) (b : Option RequestBinding) (later : DateTime)
    (actual : Option RequestBinding)
    → parse_public_key bis c.root_public_key ≡ ok key
    → decode_state bis ch ids c.token key ≡ ok d
    → IsBlock task_id id c.permissions c.expires_at b d
    → request_binding c ≡ b
    → later < c.expires_at
    → Bound actual b
    → (v : VerifiedCapability) × (verify ch ids bis c later actual ≡ ok v)
      × Fresh task_id b c v.state
unfolding verify_and_decode
verify-IsBlock ch ids bis c d key task_id id b later actual k e block struct lives bound =
    let o : optional_binding_eq d.request_binding (request_binding c) ≡ true =
      subst (λ o. optional_binding_eq d.request_binding o ≡ true) (block.binding ∙ sym struct)
        (optional_binding_eq_refl d.request_binding) in
    let t : (d.expires_at == c.expires_at) ≡ true = (==_iff _ _).1 block.expiry in
    let state : VerifiedState = record {
      task_id = d.task_id;
      permissions = d.permissions;
      expires_at = d.expires_at;
      request_binding = d.request_binding;
    } in
    let decoded : verify_and_decode ch ids bis c ≡ ok state =
      rw (k, e, block.permissions, t, o) refl in
    let v : VerifiedCapability = record { state = state } in
    (
      v,
      (verify-decoded_iff ch ids bis c later actual v).1 (
        decoded,
        subst (λ x. later < x) (sym block.expiry) lives,
        subst (λ q. Bound actual q) (sym block.binding) bound,
      ),
      record {
        task = block.task;
        rights = block.permissions;
        expiry = block.expiry;
        binding = block.binding;
      },
    )

module _ (fs : FileSystem) (ch : Chrono) (ids : UuidText) (bis : BiscuitAuth) (L : IsLawful bis)
    (printed : IsPrinted ch ids) (child : ChildCapability) (request : AttenuationRequest)
    (now : DateTime) (task_id : Uuid) (key : bis.PublicKey) (old : bis.Biscuit) where
  -- A child that was just attenuated is accepted until it expires, for the call that it is bound to if
  -- it is bound, with the task of its token and the permissions, the expiry and the binding that it was
  -- attenuated to. Conditions: the parent's token verifies and its blocks have smaller ids than the new
  -- one, a binding's hash is 32 bytes, and an unbound child is not made of a bound parent. Relied on are
  -- the parsing and the queries of biscuit-auth, within its limits, and that instants and ids are
  -- parsed to what they were printed of.
  pub verify-attenuate_child :
      {c : ChildCapability} (later : DateTime) (actual : Option RequestBinding)
      → parse_public_key bis child.root_public_key ≡ ok key
      → bis.from child.token key ≡ ok old
      → IsOlder (pos (length child.caveats + 1)) (ids.to_string task_id) (L.facts old)
      → HasHash request.request_binding
      → (request.request_binding ≡ none → request_binding child ≡ none)
      → attenuate_child fs ch ids bis child request now ≡ ok c
      → later < c.expires_at
      → Bound actual request.request_binding
      → (v : VerifiedCapability) × (verify ch ids bis c later actual ≡ ok v)
        × Fresh task_id request.request_binding c v.state
  verify-attenuate_child {c} later actual parsed verified older hashed unbound h lives bound =
      let (d, k, e, block) =
        decoded-Fresh fs ch ids bis L printed child request now task_id key old parsed verified
          older hashed h in
      verify-IsBlock ch ids bis c d key task_id (pos (length child.caveats + 1))
        request.request_binding later actual k e block
        (request_binding-attenuate_child fs ch ids bis child request now h
          ∙ shown-same request.request_binding (request_binding child) unbound)
        lives bound

  -- An unbound child that `attenuate` makes of a bound parent is rejected as tampered, although nothing
  -- was tampered with: the struct still shows the parent's binding and the latest block has none.
  -- Conditions: the parent's token verifies and its blocks have smaller ids than the new one. The same
  -- is relied on of biscuit-auth and of printed instants and ids as for the acceptance of a child.
  pub verify-unbound_child :
      {c : ChildCapability} (later : DateTime) (actual : Option RequestBinding) {b : RequestBinding}
      → parse_public_key bis child.root_public_key ≡ ok key
      → bis.from child.token key ≡ ok old
      → IsOlder (pos (length child.caveats + 1)) (ids.to_string task_id) (L.facts old)
      → request.request_binding ≡ none
      → request_binding child ≡ some b
      → attenuate_child fs ch ids bis child request now ≡ ok c
      → verify ch ids bis c later actual ≡ err state_tampered
  unfolding verify verify_and_decode optional_binding_eq from_capability_error
  verify-unbound_child {c} later actual {b} parsed verified older free bound h =
      let (d, k, e, block) =
        decoded-Fresh fs ch ids bis L printed child request now task_id key old parsed verified
          older (subst HasHash (sym free) tt) h in
      let struct : request_binding c ≡ some b =
        request_binding-attenuate_child fs ch ids bis child request now h
        ∙ (ap (λ o. shown o (request_binding child)) free ∙ bound) in
      let t : (d.expires_at == c.expires_at) ≡ true = (==_iff _ _).1 block.expiry in
      let signed : d.request_binding ≡ none = block.binding ∙ free in
      rw (k, e, block.permissions, t, signed, struct) refl

-- A child that a root has just issued with its own scope, bound to a call, is accepted for that call
-- until it expires. Conditions as for a child of a child.
pub verify-issued :
    (ch : Chrono) (ids : UuidText) (bis : BiscuitAuth) (L : IsLawful bis)
    (printed : IsPrinted ch ids) (root : RootCapability) (b : RequestBinding) (t : DateTime)
    (task_id : Uuid) (key : bis.PublicKey) (old : bis.Biscuit) (token : Text) (later : DateTime)
    → parse_public_key bis root.root_public_key ≡ ok key
    → bis.from root.token key ≡ ok old
    → IsOlder (pos 1) (ids.to_string task_id) (L.facts old)
    → HasHash (some b)
    → append_block bis ch ids root.token key (pos 1) root.permissions t (some b) ≡ ok token
    → later < t
    → (v : VerifiedCapability) × (verify ch ids bis (issued root b t token) later (some b) ≡ ok v)
      × Fresh task_id (some b) (issued root b t token) v.state
unfolding request_binding find_binding
verify-issued ch ids bis L printed root b t task_id key old token later parsed verified older hashed
      appended lives =
    let (d, e, block) =
      decode_state-append_block ch ids bis L printed root.token token key (pos 1) task_id
        root.permissions t (some b) old verified older hashed appended in
    verify-IsBlock ch ids bis (issued root b t token) d key task_id (pos 1) (some b) later (some b)
      parsed e block refl lives refl
