-- ===== src/Tests/Refinements.antt =====
-- The refinement of the reference monitor at a read that the root allows.
use attenuate_agent.Prelude.{◌*◌, some, [], ◌∷◌, ◌++◌, Text, text, Result, ok, ◌≡◌, refl, arith}
use attenuate_agent.Prelude.Int.{pos}
use attenuate_agent.Capability.Data.{RequestBinding}
use attenuate_agent.Capability.Codec.{CodecError, append_block}
use attenuate_agent.Capability.Codec.Facts.{HasHash}
use attenuate_agent.Capability.Issuance.{IsResolved}
use attenuate_agent.Capability.Lifetime.{checked_expires_at}
use attenuate_agent.Pdp
use attenuate_agent.Tools.{ToolCall, fs_read, request_binding_for}
use attenuate_agent.Agent.Orchestrator.{step}
use attenuate_agent.Agent.Monitor.Minted.{step-mint-Monitored}
use attenuate_agent.Agent.Monitor.Refinement.{Refines}
use attenuate_agent.Tests.Crates.{clock, nanos, plain_uuid, tokens}
use attenuate_agent.Tests.Laws.{tokens_laws, tokens-IsBuilt, plain_uuid-IsPrinted}
use attenuate_agent.Tests.Machine.{
  machine, crates, world, disk, root, minted, minted_ok, manifest, id_of, digest, json, value_of,
}
use attenuate_agent.Tests.Sessions.{orchestrator}

abbrev call : ToolCall
call = fs_read (text "/work/a")

-- The binding of the call to the first random id.
abbrev call_binding : RequestBinding
call_binding = record {
  tool_name = text "fs_read";
  argument_hash =
      digest (text "fs_read" ++ (0 ∷ (json (Pdp.read (text "/work/a")) ++ (0 ∷ id_of 1))));
  nonce = id_of 1;
}

unfoldable block_token : Result CodecError Text
unfolding append_block minted
block_token =
    append_block tokens clock plain_uuid root.token 5 (pos 1) root.permissions (6 * nanos)
      (some call_binding)

abbrev token : Text
token = value_of [] block_token

call-bound :
    request_binding_for crates.hash crates.to_json (Pdp.read (text "/work/a")) (id_of 1)
    ≡ ok call_binding
unfolding request_binding_for text
call-bound = refl

readable : IsResolved disk root.permissions.readable_roots
unfolding minted
readable = (refl, refl, tt)

writable : IsResolved disk root.permissions.writable_roots
unfolding minted
writable = (refl, refl, tt)

lifetime : checked_expires_at clock nanos 5 ≡ ok (6 * nanos)
unfolding checked_expires_at
lifetime = refl

hashed : HasHash (some call_binding)
unfolding text
hashed = (ground arith, refl)

appended :
    append_block tokens clock plain_uuid root.token 5
      (pos 1)
      root.permissions
      (6 * nanos)
      (some call_binding)
    ≡ ok token
unfolding append_block block_token
appended = refl

step-mint-Monitored_example :
    Refines machine crates root call world (step machine crates call (orchestrator, world))
unfolding attenuate_agent.Agent.Orchestrator.initial attenuate_agent.Tools.to_request minted
step-mint-Monitored_example =
    step-mint-Monitored machine crates tokens_laws tokens-IsBuilt plain_uuid-IsPrinted disk 5
      manifest nanos call orchestrator world call_binding token (6 * nanos) refl minted_ok readable
      writable call-bound hashed lifetime (omega arith) (omega arith) appended
