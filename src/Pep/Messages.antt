-- ===== src/Pep/Messages.antt =====
-- The `Display` texts of the errors of manifest, capability and pep.
use attenuate_agent.Prelude.{Text, text, ◌++◌}
use attenuate_agent.Manifest
use attenuate_agent.Manifest.{ManifestError, empty_ttl, repo_root_not_readable}
use attenuate_agent.Capability.Data
use attenuate_agent.Capability.Data.{
  CapabilityError, invalid_manifest, read_scope_widened, write_scope_widened, exec_scope_widened,
  ttl_widened, ttl_overflow, biscuit, token_state_mismatch,
}

pub data VerificationError : Type 0 where
  expired : VerificationError
  request_binding_mismatch : VerificationError
  signature_chain : Text → VerificationError
  state_tampered : VerificationError

unfoldable pub manifest_message : ManifestError → Text
manifest_message empty_ttl = text "task manifest must have a non-zero TTL"
manifest_message (Manifest.unsafe_path path) =
    text "manifest path must be absolute and must not contain . or .. components: " ++ path
manifest_message repo_root_not_readable = text "repo root must be present in readable roots"

unfoldable pub capability_message : CapabilityError → Text
unfolding manifest_message
capability_message (invalid_manifest e) = text "invalid task manifest: " ++ manifest_message e
capability_message (Data.unsafe_path path) =
    text "path must be absolute and must not contain . or .. components: " ++ path
capability_message read_scope_widened =
    text "requested filesystem read authority widens parent capability"
capability_message write_scope_widened =
    text "requested filesystem write authority widens parent capability"
capability_message exec_scope_widened = text "requested exec authority widens parent capability"
capability_message ttl_widened = text "requested TTL widens parent capability"
capability_message ttl_overflow = text "requested TTL cannot be represented safely"
capability_message (biscuit e) = text "failed to build or parse biscuit token: " ++ e
capability_message token_state_mismatch =
    text "capability struct state disagrees with its signed token"

unfoldable pub verification_message : VerificationError → Text
verification_message expired = text "capability is expired"
verification_message request_binding_mismatch =
    text "request-bound capability does not match the actual tool invocation"
verification_message (signature_chain e) = text "biscuit signature chain failed to verify: " ++ e
verification_message state_tampered = text "capability struct state disagrees with its signed token"
