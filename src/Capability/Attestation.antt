-- ===== src/Capability/Attestation.antt =====
-- What a token attests of the struct that carries it: `verify_and_decode` of capability/src/lib.rs.
use attenuate_agent.Prelude.{
  Bool, true, List, text_eq, In, ok, any→In, In→any, all→In, In→all, &&_true, ◌≡◌, refl, sym, ◌∙◌,
  ap, subst, ◌↔◌, ◌==◌, arith,
}
use attenuate_agent.FilePath.{path_eq}
use attenuate_agent.External.{Chrono, UuidText, BiscuitAuth}
use attenuate_agent.Manifest.{NetworkPolicy, deny_all}
use attenuate_agent.Capability.Data.{PermissionSet, ChildCapability, VerifiedState}
use attenuate_agent.Capability.Sets.{contains, set_eq}
use attenuate_agent.Capability.Codec.Decode.{DecodedState, decode_state}
use attenuate_agent.Capability.Token.{
  permissions_eq, network_eq, optional_binding_eq, request_binding, verify_and_decode,
  parse_public_key, from_codec,
}
use attenuate_agent.Capability.Mirror.{Recovered, verify_and_decode-Recovered}
use attenuate_agent.Capability.Bindings.{optional_binding_eq→eq, optional_binding_eq_refl}

-- Each element of one of the lists is equal to one of the other, as `eq` compares them.
abbrev pub SameSet : {A : Type 0} → (A → A → Bool) → List A → List A → Type 0
SameSet {A = A} eq xs ys =
    ((x : A) → In x xs → (y : A) × In y ys × (eq x y ≡ true))
    × ((y : A) → In y ys → (x : A) × In x xs × (eq y x ≡ true))

set_eq_iff :
    {A : Type 0} (eq : A → A → Bool) (xs ys : List A) → (set_eq eq xs ys ≡ true) ↔ SameSet eq xs ys
unfolding set_eq
set_eq_iff {A} eq xs ys = (
  λ h.
      let (l, r) = &&_true _ _ h in
      (
        λ x i. any→In (eq x) ys (all→In (contains eq ys) xs x l i),
        λ y i. any→In (eq y) xs (all→In (contains eq xs) ys y r i),
      ),
  λ (l, r).
      let all_l =
        In→all (contains eq ys) xs (λ x i. let (y, j, e) = l x i in In→any (eq x) ys y j e) in
      let all_r =
        In→all (contains eq xs) ys (λ y i. let (x, j, e) = r y i in In→any (eq y) xs x j e) in
      rw (all_l, all_r) refl,
)

-- The same readable roots, writable roots and binaries; there is one network policy.
pub record SamePermissions (p q : PermissionSet) : Type 0 where
  pub readable : SameSet path_eq p.readable_roots q.readable_roots
  pub writable : SameSet path_eq p.writable_roots q.writable_roots
  pub executable : SameSet text_eq p.exec_binaries q.exec_binaries

network_eq_lem : (m n : NetworkPolicy) → network_eq m n ≡ true
unfolding network_eq
network_eq_lem deny_all deny_all = refl

pub permissions_eq_iff : (p q : PermissionSet) → (permissions_eq p q ≡ true) ↔ SamePermissions p q
unfolding permissions_eq
permissions_eq_iff p q = (
  λ h.
      let (r, rest) = &&_true _ _ h in
      let (w, rest') = &&_true _ _ rest in
      let (x, n) = &&_true _ _ rest' in
      record {
        readable = (set_eq_iff path_eq p.readable_roots q.readable_roots).0 r;
        writable = (set_eq_iff path_eq p.writable_roots q.writable_roots).0 w;
        executable = (set_eq_iff text_eq p.exec_binaries q.exec_binaries).0 x;
      },
  λ s.
      rw
        (
          (set_eq_iff path_eq p.readable_roots q.readable_roots).1 s.readable,
          (set_eq_iff path_eq p.writable_roots q.writable_roots).1 s.writable,
          (set_eq_iff text_eq p.exec_binaries q.exec_binaries).1 s.executable,
        )
        (network_eq_lem p.network q.network),
)

module _ (ch : Chrono) (ids : UuidText) (bis : BiscuitAuth) where
  -- The state is what the token of the child holds under the child's key, and the child's struct
  -- shows the same permissions, the same expiry and the same binding.
  pub record Attested (child : ChildCapability) (state : VerifiedState) : Type 0 where
    pub key : bis.PublicKey
    pub parsed : parse_public_key bis child.root_public_key ≡ ok key
    pub decoded : DecodedState
    pub signed : from_codec (decode_state bis ch ids child.token key) ≡ ok decoded
    pub held : ◌≡◌ {A = VerifiedState} state (record {
      task_id = decoded.task_id;
      permissions = decoded.permissions;
      expires_at = decoded.expires_at;
      request_binding = decoded.request_binding;
    })
    pub same_permissions : SamePermissions state.permissions child.permissions
    pub same_expiry : state.expires_at ≡ child.expires_at
    pub same_binding : state.request_binding ≡ request_binding child

  recovered_state :
      (child : ChildCapability) (state : VerifiedState) (r : Recovered ch ids bis child state)
      → ◌≡◌ {A = VerifiedState} state (record {
        task_id = r.decoded.task_id;
        permissions = r.decoded.permissions;
        expires_at = r.decoded.expires_at;
        request_binding = r.decoded.request_binding;
      })
  recovered_state child state r =
      let t = r.task_id in
      let p = r.permissions in
      let e = r.expires_at in
      let b = r.binding in
      λ i. record { task_id = t i; permissions = p i; expires_at = e i; request_binding = b i }

  pub verify_and_decode_iff :
      (child : ChildCapability) (state : VerifiedState)
      → (verify_and_decode ch ids bis child ≡ ok state) ↔ Attested child state
  unfolding verify_and_decode
  verify_and_decode_iff child state = (
    λ h.
        let r = verify_and_decode-Recovered ch ids bis child h in
        record {
          key = r.key;
          parsed = r.parsed;
          decoded = r.decoded;
          signed = r.signed;
          held = recovered_state child state r;
          same_permissions =
              (permissions_eq_iff state.permissions child.permissions).0 r.same_permissions;
          same_expiry = r.same_expiry;
          same_binding =
              optional_binding_eq→eq state.request_binding (request_binding child) r.same_binding;
        },
    λ a.
        let d = a.decoded in
        let p = (permissions_eq_iff d.permissions child.permissions).1 (
          subst (λ (s : VerifiedState). SamePermissions s.permissions child.permissions) a.held
            a.same_permissions) in
        let e : d.expires_at ≡ child.expires_at =
          sym (ap (λ (s : VerifiedState). s.expires_at) a.held) ∙ a.same_expiry in
        let b : d.request_binding ≡ request_binding child =
          sym (ap (λ (s : VerifiedState). s.request_binding) a.held) ∙ a.same_binding in
        let q =
          subst (λ o. optional_binding_eq d.request_binding o ≡ true) b
            (optional_binding_eq_refl d.request_binding) in
        let t : (d.expires_at == child.expires_at) ≡ true = ground arith in
        rw (a.parsed, a.signed, p, t, q) (ap ok (sym a.held)),
  )
