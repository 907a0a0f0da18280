-- ===== src/Pep/Tampering.antt =====
-- A struct that claims more than its token grants (pep/src/lib.rs): the signature still verifies, and
-- `verify` rejects it.
use attenuate_agent.Prelude.{
  Bool, true, false, not, ◌||◌, ◌==◌, ==_iff, Option, ok, err, >>=-eq-ok, map_err, map_err-eq-ok,
  Bool-cases, ◌≡◌, ◌≢◌, refl, sym, ◌∙◌, subst, ◌⊎◌, inl, inr, arith,
}
use attenuate_agent.External.{DateTime, FileSystem, Chrono, UuidText, BiscuitAuth}
use attenuate_agent.Capability.Data.{
  RequestBinding, ChildCapability, VerifiedState, token_state_mismatch,
}
use attenuate_agent.Capability.Codec
use attenuate_agent.Capability.Codec.Decode.{DecodedState, decode_state}
use attenuate_agent.Capability.Mirror.{
  verify_and_decode-Recovered, permissions_eq-Narrows, permissions_eq_symm,
}
use attenuate_agent.Capability.Token.{
  parse_public_key, from_codec, permissions_eq, verify_signature, verify_and_decode,
}
use attenuate_agent.Pdp.{ToolRequest, decide, allow}
use attenuate_agent.Pdp.Decide.{decide_mono}
use attenuate_agent.Pep.Messages.{state_tampered}
use attenuate_agent.Pep.Verify.{verify, from_capability_error}

-- The struct of `c'` claims more than that of `c`: it allows a request, at some state of the files,
-- that `c` does not, or another expiry.
pub data Claims (c c' : ChildCapability) : Type 0 where
  right :
      (at : FileSystem) (request : ToolRequest)
      → decide at c'.permissions request ≡ allow
      → decide at c.permissions request ≢ allow
      → Claims c c'
  expiry : c'.expires_at ≢ c.expires_at → Claims c c'

or_true : (b : Bool) → (b || true) ≡ true
or_true b = ground arith

module _ (ch : Chrono) (ids : UuidText) (bis : BiscuitAuth) where
  -- What the token says and what the struct claims do not compare equal.
  Claims-unequal :
      (c c' : ChildCapability) (d : DecodedState)
      → permissions_eq d.permissions c.permissions ≡ true
      → d.expires_at ≡ c.expires_at
      → Claims c c'
      → (permissions_eq d.permissions c'.permissions ≡ false)
        ⊎ ((d.expires_at == c'.expires_at) ≡ false)
  Claims-unequal c c' d p t (right at request yes_ no_) =
      elim (Bool-cases (permissions_eq d.permissions c'.permissions)) [
        | inr e ↦ inl e
        | inl e ↦ absurd (
            no_ (
              decide_mono at d.permissions c.permissions request
                (permissions_eq-Narrows d.permissions c.permissions p)
                (decide_mono at c'.permissions d.permissions request
                  (permissions_eq-Narrows c'.permissions d.permissions
                    (permissions_eq_symm d.permissions c'.permissions e))
                  yes_)))
      ]
  Claims-unequal c c' d p t (expiry n) = elim (Bool-cases (d.expires_at == c'.expires_at)) [
    | inr e ↦ inr e
    | inl e ↦ absurd (n (sym ((==_iff _ _).0 e) ∙ t))
  ]

  unequal-rejected :
      (c : ChildCapability) (key : bis.PublicKey) (d : DecodedState)
      → parse_public_key bis c.root_public_key ≡ ok key
      → from_codec (decode_state bis ch ids c.token key) ≡ ok d
      → (permissions_eq d.permissions c.permissions ≡ false)
        ⊎ ((d.expires_at == c.expires_at) ≡ false)
      → verify_and_decode ch ids bis c ≡ err token_state_mismatch
  unfolding verify_and_decode
  unequal-rejected c key d k e (inl n) = rw (k, e, n) refl
  unequal-rejected c key d k e (inr n) =
      rw (k, e, n) (ground (arith, or_true (not (permissions_eq d.permissions c.permissions))))

  verify_signature-decoded :
      (c : ChildCapability) (key : bis.PublicKey) (d : DecodedState)
      → parse_public_key bis c.root_public_key ≡ ok key
      → from_codec (decode_state bis ch ids c.token key) ≡ ok d
      → verify_signature ch ids bis c ≡ ok tt
  unfolding verify_signature Codec.verify_signature decode_state
  verify_signature-decoded c key d k e =
      let (b, f, g) =
        >>=-eq-ok (map_err Codec.biscuit (bis.from c.token key)) _ (map_err-eq-ok _ _ e) in
      rw (k, f) refl

  -- Of a capability that verifies and another with the same token and key whose struct claims more,
  -- a right or another expiry, the other is rejected as tampered, whenever and for whatever call,
  -- although the signature of its token verifies.
  pub verify-Claims :
      (c c' : ChildCapability) (now : DateTime) (actual : Option RequestBinding)
      {state : VerifiedState}
      → verify_and_decode ch ids bis c ≡ ok state
      → c'.token ≡ c.token
      → c'.root_public_key ≡ c.root_public_key
      → Claims c c'
      → (verify ch ids bis c' now actual ≡ err state_tampered)
        × (verify_signature ch ids bis c' ≡ ok tt)
  unfolding verify from_capability_error
  verify-Claims c c' now actual {state} h same_token same_key claims =
      let r = verify_and_decode-Recovered ch ids bis c h in
      let d = r.decoded in
      let k : parse_public_key bis c'.root_public_key ≡ ok r.key =
        subst (λ t. parse_public_key bis t ≡ ok r.key) (sym same_key) r.parsed in
      let e : from_codec (decode_state bis ch ids c'.token r.key) ≡ ok d =
        subst (λ t. from_codec (decode_state bis ch ids t r.key) ≡ ok d) (sym same_token)
          r.signed in
      let p : permissions_eq d.permissions c.permissions ≡ true =
        subst (λ q. permissions_eq q c.permissions ≡ true) r.permissions r.same_permissions in
      let n = Claims-unequal c c' d p (sym r.expires_at ∙ r.same_expiry) claims in
      (rw (unequal-rejected c' r.key d k e n) refl, verify_signature-decoded c' r.key d k e)
