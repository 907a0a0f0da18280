-- ===== src/Capability/Codec/Decode.antt =====
-- `decode_state` of capability/src/biscuit_codec.rs: the state of the latest block of a token.
use attenuate_agent.Prelude.{
  Option, none, some, List, [], ◌∷◌, map, Text, text, text_eq, Result, ok, err, ◌>>=◌, map_err,
  keep, if◌then◌else◌, String,
}
use attenuate_agent.Prelude.Int.{ℤ, leb_ℤ, eq_ℤ}
use attenuate_agent.FilePath.{path_eq}
use attenuate_agent.External.{Uuid, DateTime, Chrono, UuidText, BiscuitAuth}
use attenuate_agent.Capability.Data.{PermissionSet, RequestBinding}
use attenuate_agent.Capability.Sets.{collect_set}
use attenuate_agent.Capability.Codec.{
  CodecError, biscuit, missing_fact, invalid_value, parse_network, decode_hex32,
}

pub record DecodedState : Type 0 where
  pub task_id : Uuid
  pub permissions : PermissionSet
  pub expires_at : DateTime
  pub request_binding : Option RequestBinding
  pub block_id : ℤ

abbrev pub Rows : Type 0
Rows = List (ℤ × Text)

-- `into_iter().max_by_key(|(id, _)| *id)`: of equal keys the last row.
unfoldable pub max_from : ℤ × Text → Rows → ℤ × Text
max_from best [] = best
max_from best (row ∷ rows) = max_from (if leb_ℤ best.0 row.0 then row else best) rows

unfoldable pub max_by_key : Rows → Option (ℤ × Text)
unfolding max_from leb_ℤ
max_by_key [] = none
max_by_key (row ∷ rows) = some (max_from row rows)

-- `filter(|(id, _)| *id == block_id).map(|(_, v)| v)`
unfoldable pub values_of : ℤ → Rows → List Text
values_of id rows = map (λ (_, v). v) (keep (λ (i, _). eq_ℤ i id) rows)

-- `.next()`
unfoldable pub next : List Text → Option Text
next [] = none
next (x ∷ xs) = some x

-- `.ok_or(e)`
unfoldable pub ok_or {ℓ} : {A : Type ℓ} → CodecError → Option A → Result CodecError A
ok_or e none = err e
ok_or e (some a) = ok a

module _ (bis : BiscuitAuth) (ch : Chrono) (ids : UuidText) where
  -- `authorizer.query_all("data($id, $val) <- name($id, $val)")?`
  unfoldable pub query : bis.Authorizer → String → Result CodecError Rows
  query a name = map_err biscuit (bis.query_binary a (text name))

  -- The values that one predicate has at the block, and the first of them.
  unfoldable pub block_values : bis.Authorizer → ℤ → String → Result CodecError (List Text)
  unfolding query values_of
  block_values a id name = do rows ← query a name; ok (values_of id rows)

  unfoldable pub decode_binding :
      bis.Authorizer → ℤ → Option Text → Result CodecError (Option RequestBinding)
  unfolding ok_or next
  decode_binding a id none = ok none
  decode_binding a id (some tool_name) = do
    hashes ← block_values a id "binding_arg_hash"
    hash_hex ← ok_or (missing_fact "binding_arg_hash") (next hashes)
    argument_hash ← ok_or (invalid_value "binding_arg_hash") (decode_hex32 hash_hex)
    nonces ← block_values a id "binding_nonce"
    nonce_str ← ok_or (missing_fact "binding_nonce") (next nonces)
    nonce ← ok_or (invalid_value "binding_nonce") (ids.parse_str nonce_str)
    ok (some (record { tool_name = tool_name; argument_hash = argument_hash; nonce = nonce }))

  unfoldable pub decode_permissions : bis.Authorizer → ℤ → Result CodecError PermissionSet
  unfolding ok_or next
  decode_permissions a id = do
    read_values ← block_values a id "read_root"
    write_values ← block_values a id "write_root"
    exec_values ← block_values a id "exec_binary"
    network_values ← block_values a id "network"
    network_str ← ok_or (missing_fact "network") (next network_values)
    network ← parse_network network_str
    ok (record {
      readable_roots = collect_set path_eq read_values;
      writable_roots = collect_set path_eq write_values;
      exec_binaries = collect_set text_eq exec_values;
      network = network;
    })

  -- What `decode_state` does with the authorizer.
  unfoldable pub decode_with : bis.Authorizer → Result CodecError DecodedState
  unfolding ok_or next query max_by_key
  decode_with a = do
    task_ids ← map_err biscuit (bis.query_unary a (text "task_id"))
    task_id_str ← ok_or (missing_fact "task_id") (next task_ids)
    task_id ← ok_or (invalid_value "task_id") (ids.parse_str task_id_str)
    expires_rows ← query a "expires_at"
    latest ← ok_or (missing_fact "expires_at") (max_by_key expires_rows)
    expires_at ← ok_or (invalid_value "expires_at") (ch.parse_from_rfc3339 latest.1)
    permissions ← decode_permissions a latest.0
    tools ← block_values a latest.0 "binding_tool"
    binding ← decode_binding a latest.0 (next tools)
    ok (record {
      task_id = task_id;
      permissions = permissions;
      expires_at = expires_at;
      request_binding = binding;
      block_id = latest.0;
    })

  unfoldable pub decode_state : Text → bis.PublicKey → Result CodecError DecodedState
  unfolding decode_with
  decode_state token key = do
    b ← map_err biscuit (bis.from token key)
    a ← map_err biscuit (bis.authorizer b)
    decode_with (bis.set_limits 5 a)
