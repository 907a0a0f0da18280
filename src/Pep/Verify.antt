-- ===== src/Pep/Verify.antt =====
-- `verify` of pep/src/lib.rs.
use attenuate_agent.Prelude.{
  Option, none, some, Result, ok, err, ◌>>=◌, map_err, leb, not, if◌then◌else◌,
}
use attenuate_agent.External.{DateTime, Chrono, UuidText, BiscuitAuth}
use attenuate_agent.Capability.Data.{
  RequestBinding, ChildCapability, VerifiedState, CapabilityError, token_state_mismatch,
}
use attenuate_agent.Capability.Token.{verify_and_decode, optional_binding_eq}
use attenuate_agent.Pep.Messages.{
  VerificationError, expired, request_binding_mismatch, signature_chain, state_tampered,
  capability_message,
}

pub record VerifiedCapability : Type 0 where
  pub state : VerifiedState

-- The closure of `map_err`.
unfoldable pub from_capability_error : CapabilityError → VerificationError
from_capability_error token_state_mismatch = state_tampered
from_capability_error other = signature_chain (capability_message other)

-- `if let Some(expected_binding) = state.request_binding() { if actual_binding != … }`
unfoldable pub check_binding :
    Option RequestBinding
    → Option RequestBinding
    → VerifiedState
    → Result VerificationError VerifiedCapability
check_binding actual_binding none state = ok (record { state = state })
check_binding actual_binding (some expected) state =
    if not (optional_binding_eq actual_binding (some expected))
    then err request_binding_mismatch
    else ok (record { state = state })

-- The tests on the recovered state.
unfoldable pub check_state :
    DateTime → Option RequestBinding → VerifiedState → Result VerificationError VerifiedCapability
check_state now actual_binding state =
    if leb state.expires_at now
    then err expired
    else check_binding actual_binding state.request_binding state

module _ (ch : Chrono) (ids : UuidText) (bis : BiscuitAuth) where
  unfoldable pub verify :
      ChildCapability
      → DateTime
      → Option RequestBinding
      → Result VerificationError VerifiedCapability
  verify capability now actual_binding = do
    state ← map_err from_capability_error (verify_and_decode ch ids bis capability)
    check_state now actual_binding state
