-- ===== src/Tests/Tampering.antt =====
-- The rejection of a widened struct, at the first child of the test machine.
use attenuate_agent.Prelude.{◌*◌, none, [], ◌∷◌, text, ok, err, ◌≡◌, ◌≢◌, refl, arith}
use attenuate_agent.Capability.Data.{ChildCapability, VerifiedState}
use attenuate_agent.Capability.Token.{verify_and_decode, verify_signature}
use attenuate_agent.Pdp
use attenuate_agent.Pdp.{ToolRequest, allow, deny, decide}
use attenuate_agent.Pep.Messages.{state_tampered}
use attenuate_agent.Pep.Tampering.{right, verify-Claims}
use attenuate_agent.Pep.Verify.{verify}
use attenuate_agent.Tests.Crates.{clock, nanos, plain_uuid, tokens}
use attenuate_agent.Tests.Machine.{disk, root, minted, child, attenuated, id_of}

-- The child with the root's permissions written over its own.
abbrev widened : ChildCapability
widened = record child { permissions = root.permissions }

abbrev outside : ToolRequest
outside = Pdp.read (text "/work/a")

abbrev state : VerifiedState
state = record {
  task_id = id_of 7;
  permissions = child.permissions;
  expires_at = child.expires_at;
  request_binding = none;
}

decoded : verify_and_decode clock plain_uuid tokens child ≡ ok state
unfolding verify_and_decode attenuated attenuate_agent.Capability.Codec.Decode.decode_state
    attenuate_agent.Capability.Codec.Decode.decode_permissions
    attenuate_agent.Capability.Codec.Decode.block_values attenuate_agent.Prelude.keep
    attenuate_agent.Prelude.Int.eq_ℤ attenuate_agent.Capability.Codec.parse_network
    attenuate_agent.Capability.Codec.Decode.decode_binding
    attenuate_agent.Capability.Token.permissions_eq attenuate_agent.Capability.Sets.set_eq
    attenuate_agent.Capability.Token.network_eq attenuate_agent.Capability.Token.optional_binding_eq
    attenuate_agent.Capability.Token.request_binding
decoded = refl

root-allows : decide disk root.permissions outside ≡ allow
unfolding decide minted attenuate_agent.Capability.Permissions.allows_read
    attenuate_agent.Capability.Resolve.is_under_any_root attenuate_agent.FilePath.starts_with
root-allows = refl

child-deny :
    decide disk child.permissions outside ≡ deny (text "read path is outside capability scope")
unfolding decide attenuated attenuate_agent.Capability.Permissions.allows_read
    attenuate_agent.Capability.Resolve.is_under_any_root attenuate_agent.FilePath.starts_with
child-deny = refl

child-denies : decide disk child.permissions outside ≢ allow
child-denies h = absurd (ground (arith, child-deny, h))

verify-Claims_example :
    (verify clock plain_uuid tokens widened (2 * nanos) none ≡ err state_tampered)
    × (verify_signature clock plain_uuid tokens widened ≡ ok tt)
verify-Claims_example =
    verify-Claims clock plain_uuid tokens child widened (2 * nanos) none {state = state} decoded
      refl refl (right disk outside root-allows child-denies)
