-- ===== src/Tools.antt =====
-- tools/src/lib.rs: tool calls, their authorization and their execution.
pub mod Authorize
pub mod Binding
use attenuate_agent.Prelude.{
  ℕ, Option, none, some, List, ◌∷◌, ◌++◌, Text, text, String, Result, ok, err, panic, map_err,
  length,
}
use attenuate_agent.Prelude
use attenuate_agent.Prelude.Int.{ℤ}
use attenuate_agent.Prelude.Runs.{Run, ◌>>=◌, ◌>>◌, lift, pure, mapped}
use attenuate_agent.External.{Uuid, Chrono, UuidText, BiscuitAuth, System}
use attenuate_agent.Capability.Data.{RequestBinding, ChildCapability}
use attenuate_agent.Pdp
use attenuate_agent.Pdp.{ToolRequest, Decision, allow, deny, decide}
use attenuate_agent.Pep.Messages.{VerificationError}
use attenuate_agent.Pep.Verify.{verify}

pub data ToolError : Type 0 where
  verification : VerificationError → ToolError
  serialize : Text → ToolError
  denied : Text → ToolError
  io : Text → ToolError

pub data ToolCall : Type 0 where
  fs_read : Text → ToolCall
  fs_write : Text → Text → ToolCall
  exec : Text → List Text → ToolCall
  network : Text → ℕ → Text → ToolCall

pub data ToolOutput : Type 0 where
  read : Text → ToolOutput
  write : ℕ → ToolOutput
  exec : Option ℤ → Text → Text → ToolOutput
  network : ℕ → ToolOutput

unfoldable pub request_tool_name : ToolRequest → Text
request_tool_name (Pdp.read path) = text "fs_read"
request_tool_name (Pdp.write path) = text "fs_write"
request_tool_name (Pdp.exec binary) = text "exec"
request_tool_name Pdp.network = text "network"

-- `ToolCall::to_request`
unfoldable pub to_request : ToolCall → ToolRequest
to_request (fs_read path) = Pdp.read path
to_request (fs_write path contents) = Pdp.write path
to_request (ToolCall.exec binary args) = Pdp.exec binary
to_request (ToolCall.network host port payload) = Pdp.network

-- `ToolCall::tool_name`
unfoldable pub tool_name : ToolCall → Text
tool_name (fs_read path) = text "fs_read"
tool_name (fs_write path contents) = text "fs_write"
tool_name (ToolCall.exec binary args) = text "exec"
tool_name (ToolCall.network host port payload) = text "network"

-- What `hash_tool_arguments` of capability/src/lib.rs feeds to the hasher.
unfoldable pub argument_bytes : Text → Text → Uuid → Text
argument_bytes name arguments nonce = name ++ (0 ∷ (arguments ++ (0 ∷ nonce)))

unfoldable pub hash_tool_arguments : (Text → Text) → Text → Text → Uuid → Text
unfolding argument_bytes
hash_tool_arguments hash name arguments nonce = hash (argument_bytes name arguments nonce)

module _ (hash : Text → Text) (to_json : ToolRequest → Result Text Text) where
  unfoldable pub request_binding_for : ToolRequest → Uuid → Result Text RequestBinding
  unfolding hash_tool_arguments request_tool_name
  request_binding_for request nonce = Prelude.◌>>=◌ (to_json request) λ canonical_arguments.
      ok (record {
        tool_name = request_tool_name request;
        argument_hash =
            hash_tool_arguments hash (request_tool_name request) canonical_arguments nonce;
        nonce = nonce;
      })

  -- `nonce.map(|nonce| request_binding_for(&request, nonce)).transpose()?`
  unfoldable pub actual_binding :
      ToolRequest → Option Uuid → Result ToolError (Option RequestBinding)
  actual_binding request none = ok none
  actual_binding request (some nonce) =
      Prelude.◌>>=◌ (map_err serialize (request_binding_for request nonce)) λ b. ok (some b)

-- The crates that the tools call. `hash` is blake3 over the concatenated updates, and `to_json` is
-- `serde_json::to_vec` of a request.
pub record Crates : Type 1 where
  pub chrono : Chrono
  pub uuid : UuidText
  pub biscuit : BiscuitAuth
  pub hash : Text → Text
  pub to_json : ToolRequest → Result Text Text

-- `match decide(..)`
unfoldable pub decision_result : Decision → Result ToolError (Unit {0})
decision_result allow = ok tt
decision_result (deny reason) = err (denied reason)

module _ (sys : System) where
  unfoldable pub execute : ToolCall → Run sys.World ToolError ToolOutput
  execute (fs_read path) = do
    content ← mapped (map_err io) (sys.read_to_string path)
    pure (read content)
  execute (fs_write path contents) = do
    mapped (map_err io) (sys.write path contents)
    pure (write (length contents))
  execute (ToolCall.exec binary args) = do
    out ← mapped (map_err io) (sys.output binary args)
    pure (exec out.status (sys.from_utf8_lossy out.stdout) (sys.from_utf8_lossy out.stderr))
  execute (ToolCall.network host port payload) = do
    stream ← mapped (map_err io) (sys.connect host port)
    mapped (map_err io) (sys.write_all stream payload)
    pure (network (length payload))

  module _ (crates : Crates) where
    open crates use {chrono, uuid, biscuit, hash, to_json}

    unfoldable pub authorize_only :
        ChildCapability → ToolRequest → Option Uuid → Run sys.World ToolError (Unit {0})
    authorize_only capability request nonce = do
      binding ← lift (actual_binding hash to_json request nonce)
      now ← λ w. let (t, w') = sys.now w in (ok t, w')
      verified ← lift (map_err verification (verify chrono uuid biscuit capability now binding))
      λ w. (decision_result (decide (sys.files w) verified.state.permissions request), w)

    unfoldable pub dispatch :
        ChildCapability → ToolCall → Option Uuid → Run sys.World ToolError ToolOutput
    dispatch capability call nonce = do
      authorize_only capability (to_request call) nonce
      execute call
