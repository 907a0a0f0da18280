-- ===== src/Lib.antt =====
-- A model of Warden, which puts an untrusted agent's tool calls under attenuated capabilities.
--
-- The program. A trusted task manifest (manifest/) is minted into a root capability (capability/): a
-- set of permissions, an expiry and a signed biscuit token that carries both as datalog facts
-- (capability/src/biscuit_codec.rs). For every tool call that a principal asks for, the orchestrator
-- (agent/src/lib.rs) attenuates the root to a child that lives for seconds and is bound to the call,
-- and hands the child and the call to `dispatch` (tools/): the enforcement point (pep/) verifies the
-- child and recovers the state that its token carries, the decision point (pdp/) decides on that
-- state, and only then is the call executed. Every step is recorded in a hash-chained log (audit/).
--
-- Which file models what. Operations have the source's names; where two of the source share one, the
-- comment above the definition says which it is.
-- - Manifest: manifest/src/lib.rs, with `TaskManifest::validate`.
-- - Capability.Data: the types of capability/src/lib.rs. Capability.Sets: `BTreeSet`, as a list whose
--   order nothing depends on. Capability.Resolve: `checked_path` and `resolve_existing_ancestor`.
--   Capability.Permissions: `PermissionSet`. Capability.Lifetime: `validate_attenuation` and
--   `checked_expires_at`. Capability.Token: `mint`, the two `attenuate` methods (`attenuate_root` and
--   `attenuate_child`), `verify_and_decode`.
-- - Capability.Codec and Capability.Codec.Decode: capability/src/biscuit_codec.rs; the modules below
--   Capability.Codec beside Decode prove what it writes and reads.
-- - Pdp and Pdp.Linter: pdp/src. Pep.Verify and Pep.Messages: pep/src/lib.rs and the texts of errors.
-- - Audit: audit/src/lib.rs. Tools: tools/src/lib.rs.
-- - Agent.Mode, Agent.Feedback, Agent.Orchestrator, Agent.Principal: agent/src/lib.rs, from
--   `AuthzMode` to the loop `run_principal` and the scripted principal.
-- - Agent.Chat: the messages and the tools that are advertised to a model, agent/src/lib.rs from
--   `ChatRequest` on; Agent.Chat.Parse: `parse_raw_tool_call`; Agent.Chat.Post: `post_chat` and
--   `fetch_tool_calls_from_model`. Agent.Client: `OpenAiPrincipalClient`, whose trait implementation
--   is the principal `openai`. Agent.Chat.Schema, Agent.Chat.Advertised and the modules below
--   Agent.Client prove.
-- - CommandLine: agent/src/main.rs, with its arguments and environment as data and what it prints as
--   lines; CommandLine.Report: the texts that it prints, with the `Display` of audit events and errors.
-- - Sandbox: sandbox/src/lib.rs.
-- - Capability.Attestation, Pep.Acceptance and Tools.Authorize: what an accepted token and an admitted
--   call are. Agent.Trail and Agent.Accounts: what is recorded of a decision and of a whole run.
-- - Agent.Monitor: the reference monitor, a step relation that an enforced step is compared with.
-- - FilePath: `std::path` for Unix, as far as the crates call it: `components`, `starts_with`, `==`,
--   `push`, `is_absolute`, and `collect` of components. Prelude: shared types and lemmas.
-- - Tests: runs on concrete inputs, on small implementations of what is external.
--
-- State and errors. A text is its UTF-8 bytes; paths are taken to be UTF-8. A fallible call returns a
-- `Result` with a third case, `panic`. Calls that act on the machine are functions of its state that
-- return the next state beside the result, also on errors (`Run`). The orchestrator's state is its
-- struct and the machine's state; a session adds the principal's state and the outcomes.
--
-- External. What the crates call and do not implement is a record in External that the definitions
-- take as a parameter: the file system (at one moment), chrono, uuid, biscuit-auth, blake3 and
-- serde_json (in Tools.Crates, and External.Json for the values of the model's arguments), reqwest
-- (External.Http, with whatever answers its requests; a connection of the network tool is a call of
-- the machine instead, and is taken not to change what answers those), and the machine with its
-- clock, its random ids and its system calls. Nothing is assumed of them but what a theorem names:
-- `Audit.Bytes.IsLawful` of chrono's timestamps (their sizes, and that seconds and nanoseconds
-- determine an instant), `IsPrinted` of chrono's and uuid's texts (they are parsed to what they
-- were printed of), `Capability.Codec.Facts.IsLawful` of biscuit-auth (appended facts are kept, and
-- queries answered with all facts, within its limits), `Capability.Minting.IsBuilt` of the same (a
-- built token verifies and has its facts), `Capability.Overflow.IsBounded` of chrono (the longest
-- duration), that two given hashes do not collide, that the JSON text of a request determines it,
-- `External.Json.IsLawful` of serde_json's values (what is printed is parsed back, accessors give
-- what was put in). The random key of `mint` and the random id of `chain_entry` are arguments.
--
-- Bounds. All loops of the source end by structure here: the loop of `resolve_existing_ancestor` goes
-- down the components of the path, `run_principal` down the number of turns that the source passes,
-- `next_tool_calls` down its three tries. A temperature is in tenths, a port a number.
-- The rounds of `decimal` are one more than the number itself, which has fewer digits than that. A
-- `u64` TTL is a number that is compared with `i64::MAX` where the source converts it.
--
-- Not modelled: the demo's command line (demo/), the spikes, the examples and the
-- tests; what is printed on the standard error; serde's derived formats, with the defaults of missing
-- fields; that biscuit-auth's Datalog engine has a time limit; concurrent changes of the file system
-- during one call.
mod Prelude
pub mod FilePath
pub mod External
pub mod Manifest
pub mod Capability
pub mod Pdp
pub mod Pep
pub mod Audit
pub mod Tools
pub mod Agent
pub mod CommandLine
pub mod Sandbox
mod Tests
