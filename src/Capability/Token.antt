-- ===== src/Capability/Token.antt =====
-- The operations of `RootCapability` and `ChildCapability` of capability/src/lib.rs.
use attenuate_agent.Prelude.{
  ◌+◌, Bool, true, false, not, ◌||◌, ◌&&◌, Option, none, some, List, [], ◌∷◌, ◌++◌, Text, text,
  text_eq, Result, ok, err, ◌>>=◌, ◌>>◌, map_err, length, reverse, ◌==◌, if◌then◌else◌,
}
use attenuate_agent.Prelude.Int.{pos}
use attenuate_agent.FilePath.{path_eq}
use attenuate_agent.External.{DateTime, FileSystem, Chrono, UuidText, BiscuitAuth}
use attenuate_agent.Manifest
use attenuate_agent.Manifest.{TaskManifest, NetworkPolicy, deny_all}
use attenuate_agent.Capability.Data.{
  PermissionSet, RequestBinding, AttenuationRequest, RootCapability, Caveat, ChildCapability,
  VerifiedState, CapabilityError, invalid_manifest, biscuit, token_state_mismatch,
}
use attenuate_agent.Capability.Sets.{set_eq}
use attenuate_agent.Capability.Resolve.{checked_paths}
use attenuate_agent.Capability.Permissions.{from_manifest}
use attenuate_agent.Capability.Lifetime.{checked_expires_at, validate_attenuation}
use attenuate_agent.Capability.Codec
use attenuate_agent.Capability.Codec.{
  CodecError, missing_fact, invalid_value, build_root_token, append_block,
}
use attenuate_agent.Capability.Codec.Decode.{decode_state}

-- `impl Display for CodecError`, and its `From` into `CapabilityError`.
unfoldable pub codec_message : CodecError → Text
codec_message (Codec.biscuit e) = text "biscuit error: " ++ e
codec_message (missing_fact name) = text "biscuit token is missing required fact: " ++ text name
codec_message (invalid_value name) = text "biscuit fact has unparseable value: " ++ text name

abbrev pub from_codec : {A : Type 0} → Result CodecError A → Result CapabilityError A
from_codec r = map_err (λ e. biscuit (codec_message e)) r

unfoldable pub parse_public_key : (bis : BiscuitAuth) → Text → Result CapabilityError bis.PublicKey
parse_public_key bis bytes =
    map_err (λ e. biscuit (text "invalid root public key: " ++ e)) (bis.from_bytes bytes)

-- `caveats.iter().rev().find_map(|caveat| caveat.request_binding.as_ref())`
unfoldable pub find_binding : List Caveat → Option RequestBinding
find_binding [] = none
find_binding (c ∷ cs) = elim c.request_binding [ some b ↦ some b | none ↦ find_binding cs ]

unfoldable pub request_binding : ChildCapability → Option RequestBinding
unfolding find_binding
request_binding child = find_binding (reverse child.caveats)

-- The derived `PartialEq` of the types compared.
unfoldable pub network_eq : NetworkPolicy → NetworkPolicy → Bool
network_eq deny_all deny_all = true

unfoldable pub permissions_eq : PermissionSet → PermissionSet → Bool
permissions_eq p q =
    set_eq path_eq p.readable_roots q.readable_roots
    && (set_eq path_eq p.writable_roots q.writable_roots
        && (set_eq text_eq p.exec_binaries q.exec_binaries && network_eq p.network q.network))

unfoldable pub binding_eq : RequestBinding → RequestBinding → Bool
binding_eq a b =
    text_eq a.tool_name b.tool_name
    && (text_eq a.argument_hash b.argument_hash && text_eq a.nonce b.nonce)

unfoldable pub optional_binding_eq : Option RequestBinding → Option RequestBinding → Bool
unfolding binding_eq
optional_binding_eq none none = true
optional_binding_eq none (some b) = false
optional_binding_eq (some a) none = false
optional_binding_eq (some a) (some b) = binding_eq a b

-- The permissions that both `attenuate` methods build from a request.
unfoldable pub requested_permissions :
    FileSystem → AttenuationRequest → Result CapabilityError PermissionSet
requested_permissions fs request = do
  readable ← checked_paths fs request.readable_roots
  writable ← checked_paths fs request.writable_roots
  ok (record {
    readable_roots = readable;
    writable_roots = writable;
    exec_binaries = request.exec_binaries;
    network = request.network;
  })

module _ (fs : FileSystem) (ch : Chrono) (ids : UuidText) (bis : BiscuitAuth) where
  -- The key pair is the random one that `KeyPair::new` draws.
  unfoldable pub mint :
      bis.KeyPair → TaskManifest → DateTime → Result CapabilityError RootCapability
  mint keypair manifest now = do
    map_err invalid_manifest (Manifest.validate manifest)
    expires_at ← checked_expires_at ch now manifest.ttl_seconds
    permissions ← from_manifest fs manifest
    token ← from_codec (build_root_token bis ch ids manifest.task_id permissions expires_at keypair)
    ok (record {
      task_id = manifest.task_id;
      permissions = permissions;
      expires_at = expires_at;
      token = token;
      root_public_key = bis.to_bytes (bis.public keypair);
    })

  unfoldable pub attenuate_root :
      RootCapability → AttenuationRequest → DateTime → Result CapabilityError ChildCapability
  attenuate_root root request now = do
    validate_attenuation fs ch root.permissions root.expires_at request now
    expires_at ← checked_expires_at ch now request.ttl_seconds
    permissions ← requested_permissions fs request
    key ← parse_public_key bis root.root_public_key
    token ← from_codec (
        append_block bis ch ids root.token key (pos 1) permissions expires_at
          request.request_binding)
    ok (record {
      task_id = root.task_id;
      permissions = permissions;
      expires_at = expires_at;
      caveats =
          record {
            permissions = permissions;
            expires_at = expires_at;
            request_binding = request.request_binding;
          }
          ∷ [];
      token = token;
      root_public_key = root.root_public_key;
    })

  unfoldable pub attenuate_child :
      ChildCapability → AttenuationRequest → DateTime → Result CapabilityError ChildCapability
  attenuate_child child request now = do
    validate_attenuation fs ch child.permissions child.expires_at request now
    expires_at ← checked_expires_at ch now request.ttl_seconds
    permissions ← requested_permissions fs request
    let next_block_id = pos (length child.caveats + 1)
    key ← parse_public_key bis child.root_public_key
    token ← from_codec (
        append_block bis ch ids child.token key next_block_id permissions expires_at
          request.request_binding)
    ok (record {
      task_id = child.task_id;
      permissions = permissions;
      expires_at = expires_at;
      caveats =
          child.caveats
          ++ record {
            permissions = permissions;
            expires_at = expires_at;
            request_binding = request.request_binding;
          }
            ∷ [];
      token = token;
      root_public_key = child.root_public_key;
    })

module _ (ch : Chrono) (ids : UuidText) (bis : BiscuitAuth) where
  unfoldable pub verify_signature : ChildCapability → Result CapabilityError (Unit {0})
  unfolding parse_public_key
  verify_signature child = do
    key ← parse_public_key bis child.root_public_key
    from_codec (Codec.verify_signature bis child.token key)

  unfoldable pub verify_and_decode : ChildCapability → Result CapabilityError VerifiedState
  verify_and_decode child = do
    key ← parse_public_key bis child.root_public_key
    decoded ← from_codec (decode_state bis ch ids child.token key)
    if not (permissions_eq decoded.permissions child.permissions)
          || not (decoded.expires_at == child.expires_at)
          || not (optional_binding_eq decoded.request_binding (request_binding child))
        then err token_state_mismatch
        else ok (record {
          task_id = decoded.task_id;
          permissions = decoded.permissions;
          expires_at = decoded.expires_at;
          request_binding = decoded.request_binding;
        })
