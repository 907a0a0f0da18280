-- ===== src/Audit.antt =====
-- audit/src/lib.rs: the hash-chained log. `hash` is blake3 over the concatenated updates.
pub mod Chain
pub mod Bytes
pub mod Tamper
use attenuate_agent.Prelude.{
  ℕ, zero, suc, ◌+◌, ◌/◌, ◌%◌, Option, none, some, List, [], ◌∷◌, ◌++◌, Text, text, text_eq, length,
  Result, ok, err, not, if◌then◌else◌, ◌>>=◌, ◌>>◌,
}
use attenuate_agent.External.{Uuid, DateTime, Chrono}

pub data AuditEvent : Type 0 where
  root_minted : Uuid → AuditEvent
  capability_attenuated : Uuid → AuditEvent
  tool_allowed : Text → AuditEvent
  tool_denied : Text → Text → AuditEvent

pub record AuditEntry : Type 0 where
  pub id : Uuid
  pub timestamp : DateTime
  pub event : AuditEvent
  pub previous_hash : Text
  pub entry_hash : Text

pub data AuditError : Type 0 where
  broken_chain : ℕ → AuditError
  hash_mismatch : ℕ → AuditError

-- `to_be_bytes` of a number of `k` bytes.
unfoldable pub be_bytes : ℕ → ℕ → Text
be_bytes zero n = []
be_bytes (suc k) n = be_bytes k (n / 256) ++ (n % 256 ∷ [])

-- What `hash_str` feeds to the hasher.
unfoldable pub str_bytes : Text → Text
unfolding be_bytes
str_bytes value = be_bytes 8 (length value) ++ value

-- What `hash_event` feeds to the hasher.
unfoldable pub event_bytes : AuditEvent → Text
unfolding str_bytes
event_bytes (root_minted task_id) = text "root_minted" ++ task_id
event_bytes (capability_attenuated task_id) = text "capability_attenuated" ++ task_id
event_bytes (tool_allowed tool_name) = text "tool_allowed" ++ str_bytes tool_name
event_bytes (tool_denied tool_name reason) =
    text "tool_denied" ++ (str_bytes tool_name ++ str_bytes reason)

module _ (ch : Chrono) where
  -- All that `hash_entry_fields` feeds to the hasher.
  unfoldable pub entry_bytes : Uuid → DateTime → AuditEvent → Text → Text
  unfolding event_bytes
  entry_bytes id t event previous_hash =
      id ++ (ch.timestamp t ++ (ch.subsec_nanos t ++ (event_bytes event ++ previous_hash)))

  module _ (hash : Text → Text) where
    unfoldable pub hash_entry_fields : Uuid → DateTime → AuditEvent → Text → Text
    unfolding entry_bytes
    hash_entry_fields id t event previous_hash = hash (entry_bytes id t event previous_hash)

    -- `id` is the random one that `Uuid::new_v4` draws.
    unfoldable pub chain_entry : Uuid → Text → DateTime → AuditEvent → Result AuditError AuditEntry
    unfolding hash_entry_fields
    chain_entry id previous_hash t event = ok (record {
      id = id;
      timestamp = t;
      event = event;
      previous_hash = previous_hash;
      entry_hash = hash_entry_fields id t event previous_hash;
    })

    -- `if let Some(previous) = … { if entry.previous_hash != previous.entry_hash`
    unfoldable pub continues : Option AuditEntry → AuditEntry → ℕ → Result AuditError (Unit {0})
    continues none entry index = ok tt
    continues (some previous) entry index =
        if not (text_eq entry.previous_hash previous.entry_hash)
        then err (broken_chain index)
        else ok tt

    -- The tests of one round of the loop.
    unfoldable pub check_entry : Option AuditEntry → AuditEntry → ℕ → Result AuditError (Unit {0})
    unfolding hash_entry_fields continues
    check_entry previous entry index =
        if not (
          text_eq entry.entry_hash
            (hash_entry_fields entry.id entry.timestamp entry.event entry.previous_hash))
        then err (hash_mismatch index)
        else continues previous entry index

    -- The loop, at `index`; `previous` is `entries.get(index - 1)`.
    unfoldable pub verify_from :
        ℕ → Option AuditEntry → List AuditEntry → Result AuditError (Unit {0})
    unfolding check_entry
    verify_from index previous [] = ok tt
    verify_from index previous (entry ∷ entries) = do
      check_entry previous entry index
      verify_from (suc index) (some entry) entries

    unfoldable pub verify_chain : List AuditEntry → Result AuditError (Unit {0})
    unfolding verify_from
    verify_chain entries = verify_from 0 none entries
