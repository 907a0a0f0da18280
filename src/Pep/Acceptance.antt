-- ===== src/Pep/Acceptance.antt =====
-- Exactly which capabilities `verify` of pep/src/lib.rs accepts.
use attenuate_agent.Prelude.{◌<◌, Option, ok, ◌≡◌, ◌↔◌}
use attenuate_agent.External.{DateTime, Chrono, UuidText, BiscuitAuth}
use attenuate_agent.Capability.Data.{RequestBinding, ChildCapability, VerifiedState}
use attenuate_agent.Capability.Attestation.{Attested, verify_and_decode_iff}
use attenuate_agent.Pep.Soundness.{Bound, verify-decoded_iff}
use attenuate_agent.Pep.Verify.{VerifiedCapability, verify}

module _ (ch : Chrono) (ids : UuidText) (bis : BiscuitAuth) where
  -- The token attests the struct, has not expired, and is for the actual call, if for any.
  pub record Acceptable (child : ChildCapability) (now : DateTime) (actual : Option RequestBinding)
      (state : VerifiedState) : Type 0 where
    pub attested : Attested ch ids bis child state
    pub alive : now < state.expires_at
    pub bound : Bound actual state.request_binding

  -- `verify` accepts a capability exactly when its token is signed under its key and holds a state
  -- with the permissions, as sets, the expiry and the binding that its struct shows, that state has
  -- not expired, and, if it is bound to a call, the binding of the actual call is the one that it is
  -- bound to; what it hands on is that state.
  pub verify_iff :
      (child : ChildCapability) (now : DateTime) (actual : Option RequestBinding)
      (v : VerifiedCapability)
      → (verify ch ids bis child now actual ≡ ok v) ↔ Acceptable child now actual v.state
  verify_iff child now actual v =
      let outer = verify-decoded_iff ch ids bis child now actual v in
      let inner = verify_and_decode_iff ch ids bis child v.state in
      (
        λ h. let (d, n, b) = outer.0 h in record { attested = inner.0 d; alive = n; bound = b },
        λ a. outer.1 (inner.1 a.attested, a.alive, a.bound),
      )
