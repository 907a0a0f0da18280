-- ===== src/Pep/Soundness.antt =====
-- What `verify` of pep/src/lib.rs accepts.
use attenuate_agent.Prelude.{
  ◌<◌, Option, none, some, ok, map_err, map_err-eq-ok, >>=-eq-ok, Bool-cases, ◌≡◌, refl, sym, subst,
  ◌↔◌, inl, inr, arith, true, leb,
}
use attenuate_agent.External.{DateTime, Chrono, UuidText, BiscuitAuth}
use attenuate_agent.Capability.Data.{RequestBinding, ChildCapability, VerifiedState}
use attenuate_agent.Capability.Bindings.{optional_binding_eq→eq, optional_binding_eq_refl}
use attenuate_agent.Capability.Token.{verify_and_decode, optional_binding_eq}
use attenuate_agent.Pep.Verify.{
  VerifiedCapability, verify, check_binding, check_state, from_capability_error,
}

-- The binding of the actual call is the one that the capability is bound to, if it is bound.
abbrev pub Bound : Option RequestBinding → Option RequestBinding → Type 0
Bound actual none = Unit
Bound actual (some expected) = actual ≡ some expected

check_binding_iff :
    (actual expected : Option RequestBinding) (s : VerifiedState) (v : VerifiedCapability)
    → (check_binding actual expected s ≡ ok v) ↔ (Bound actual expected × (v.state ≡ s))
unfolding check_binding
check_binding_iff actual none s v = (λ h. (tt, ground arith), λ (b, e). ground arith)
check_binding_iff actual (some b) s v = (
  λ h. (optional_binding_eq→eq actual (some b) (ground arith), ground arith),
  λ (e, same).
      let q : optional_binding_eq actual (some b) ≡ true =
        subst (λ o. optional_binding_eq actual o ≡ true) e (optional_binding_eq_refl actual) in
      rw q (ground arith),
)

pub check_state_iff :
    (now : DateTime) (actual : Option RequestBinding) (s : VerifiedState) (v : VerifiedCapability)
    → (check_state now actual s ≡ ok v)
      ↔ ((now < s.expires_at) × Bound actual s.request_binding × (v.state ≡ s))
unfolding check_state
check_state_iff now actual s v = elim (Bool-cases (leb s.expires_at now)) [
  | inl e ↦ (λ h. absurd (ground arith), λ h. absurd (ground arith))
  | inr e ↦ (
    λ h.
        let (b, q) = (check_binding_iff actual s.request_binding s v).0 (rw e at h) in
        (ground arith, b, q),
    λ (n, b, q). rw e ((check_binding_iff actual s.request_binding s v).1 (b, q)),
  )
]

-- `verify` accepts what `verify_and_decode` accepts, if that state has not expired, and, if it is
-- bound to a call, the binding of the actual call is the one that it is bound to; what it hands on is
-- that state.
pub verify-decoded_iff :
    (ch : Chrono) (ids : UuidText) (bis : BiscuitAuth) (child : ChildCapability) (now : DateTime)
    (actual : Option RequestBinding) (v : VerifiedCapability)
    → (verify ch ids bis child now actual ≡ ok v) ↔ (
        (verify_and_decode ch ids bis child ≡ ok v.state)
        × (now < v.state.expires_at)
        × Bound actual v.state.request_binding)
unfolding verify
verify-decoded_iff ch ids bis child now actual v = (
  λ h.
      let (s, e, h') =
        >>=-eq-ok (map_err from_capability_error (verify_and_decode ch ids bis child)) _ h in
      let (n, b, q) = (check_state_iff now actual s v).0 h' in
      let d = map_err-eq-ok from_capability_error (verify_and_decode ch ids bis child) e in
      (
        subst (λ t. verify_and_decode ch ids bis child ≡ ok t) (sym q) d,
        subst (λ (t : VerifiedState). now < t.expires_at) (sym q) n,
        subst (λ (t : VerifiedState). Bound actual t.request_binding) (sym q) b,
      ),
  λ (d, n, b). rw d ((check_state_iff now actual v.state v).1 (n, b, refl)),
)
