-- ===== src/Capability/Codec.antt =====
-- capability/src/biscuit_codec.rs: the facts of a token block, and their texts.
pub mod Decode
pub mod Texts
pub mod Values
pub mod Rows
pub mod Facts
pub mod Columns
pub mod Roundtrip
use attenuate_agent.Prelude.{
  ℕ, zero, suc, ◌+◌, ◌-◌, ◌*◌, ◌/◌, ◌%◌, Bool, true, false, ◌&&◌, Option, none, some, List, [], ◌∷◌,
  ◌++◌, map, Text, text, text_eq, Result, ok, err, panic, ◌>>=◌, map_err, length, leb, ◌==◌,
  if◌then◌else◌, String,
}
use attenuate_agent.Prelude.Int.{ℤ, pos}
use attenuate_agent.External.{Uuid, DateTime, Chrono, UuidText, Fact, FactSource, BiscuitAuth}
use attenuate_agent.Manifest.{NetworkPolicy, deny_all}
use attenuate_agent.Capability.Data.{PermissionSet, RequestBinding}

pub data CodecError : Type 0 where
  biscuit : Text → CodecError
  missing_fact : String → CodecError
  invalid_value : String → CodecError

-- `str::replace` of one byte by a text.
unfoldable pub replace : ℕ → Text → Text → Text
replace c by [] = []
replace c by (d ∷ s) = if d == c then by ++ replace c by s else d ∷ replace c by s

-- `\` becomes `\\`, then `"` becomes `\"`.
unfoldable pub escape : Text → Text
unfolding replace
escape s = replace 34 (92 ∷ 34 ∷ []) (replace 92 (92 ∷ 92 ∷ []) s)

unfoldable pub network_to_str : NetworkPolicy → Text
network_to_str deny_all = text "deny_all"

unfoldable pub parse_network : Text → Result CodecError NetworkPolicy
parse_network s = if text_eq s (text "deny_all") then ok deny_all else err (invalid_value "network")

-- The lower-case digit that `{:02x}` prints.
unfoldable pub hex_digit : ℕ → ℕ
hex_digit n = if leb n 9 then b'0' + n else b'a' + (n - 10)

unfoldable pub encode_hex : Text → Text
encode_hex [] = []
encode_hex (b ∷ bs) = hex_digit (b / 16) ∷ hex_digit (b % 16) ∷ encode_hex bs

-- `char::to_digit(16)`
unfoldable pub to_digit : ℕ → Option ℕ
to_digit c =
    if leb b'0' c && leb c b'9'
    then some (c - b'0')
    else if leb b'a' c && leb c b'f'
    then some (c - b'a' + 10)
    else if leb b'A' c && leb c b'F'
    then some (c - b'A' + 10)
    else none

-- The loop over the 32 output bytes: `(hi << 4) | lo` of each pair of digits.
unfoldable pub decode_pairs : Text → Option Text
decode_pairs [] = some []
decode_pairs (c ∷ []) = none
decode_pairs (c ∷ d ∷ s) = elim (to_digit c) [
  | none ↦ none
  | some hi ↦ elim (to_digit d) [
    | none ↦ none
    | some lo ↦ elim (decode_pairs s) [ none ↦ none | some bs ↦ some ((hi * 16 + lo) ∷ bs) ]
  ]
]

unfoldable pub decode_hex32 : Text → Option Text
decode_hex32 s = if length s == 64 then decode_pairs s else none

-- One `format!("predicate({block_id}, \"…\")")`.
unfoldable pub fact_source : String → ℤ → Text → FactSource
fact_source name id literal = record {
  predicate = text name;
  block_id = some id;
  literal = literal;
}

module _ (ch : Chrono) (ids : UuidText) where
  unfoldable pub binding_facts : ℤ → Option RequestBinding → List FactSource
  unfolding fact_source
  binding_facts id none = []
  binding_facts id (some b) =
      fact_source "binding_tool" id (escape b.tool_name)
      ∷ fact_source "binding_arg_hash" id (encode_hex b.argument_hash)
      ∷ fact_source "binding_nonce" id (ids.to_string b.nonce)
      ∷ []

  unfoldable pub state_facts :
      ℤ → PermissionSet → DateTime → Option RequestBinding → List FactSource
  unfolding binding_facts fact_source
  state_facts id p expires_at binding =
      fact_source "expires_at" id (escape (ch.to_rfc3339 expires_at))
      ∷ (map (λ path. fact_source "read_root" id (escape path)) p.readable_roots
          ++ (map (λ path. fact_source "write_root" id (escape path)) p.writable_roots
              ++ (map (λ binary. fact_source "exec_binary" id (escape binary)) p.exec_binaries
                  ++ (fact_source "network" id (network_to_str p.network)
                      ∷ binding_facts id binding))))

module _ (bis : BiscuitAuth) where
  -- `for fact in facts { builder.add_fact(fact.as_str())?; }`
  unfoldable pub add_facts : List FactSource → Result CodecError (List Fact)
  add_facts [] = ok []
  add_facts (source ∷ sources) = do
    fact ← map_err biscuit (bis.parse_fact source)
    facts ← add_facts sources
    ok (fact ∷ facts)

  unfoldable pub verify_signature : Text → bis.PublicKey → Result CodecError (Unit {0})
  verify_signature token key = do token ← map_err biscuit (bis.from token key); ok tt

  module _ (ch : Chrono) (ids : UuidText) where
    -- `task_id("{task_id}")`
    unfoldable pub task_id_source : Uuid → FactSource
    task_id_source task_id = record {
      predicate = text "task_id";
      block_id = none;
      literal = ids.to_string task_id;
    }

    unfoldable pub build_root_token :
        Uuid → PermissionSet → DateTime → bis.KeyPair → Result CodecError Text
    unfolding task_id_source
    build_root_token task_id p expires_at keypair = do
      facts ← add_facts (task_id_source task_id ∷ state_facts ch ids (pos 0) p expires_at none)
      token ← map_err biscuit (bis.build facts keypair)
      map_err biscuit (bis.to_vec token)

    unfoldable pub append_block :
        Text
        → bis.PublicKey
        → ℤ
        → PermissionSet
        → DateTime
        → Option RequestBinding
        → Result CodecError Text
    append_block token key id p expires_at binding = do
      b ← map_err biscuit (bis.from token key)
      facts ← add_facts (state_facts ch ids id p expires_at binding)
      appended ← map_err biscuit (bis.append b facts)
      map_err biscuit (bis.to_vec appended)
