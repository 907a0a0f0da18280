-- ===== src/Agent/Chat/Parse.antt =====
-- `parse_raw_tool_call` of agent/src/lib.rs.
use attenuate_agent.Prelude.{
  ℕ, ◌^◌, Option, none, some, List, [], ◌∷◌, Text, text, text_eq, Result, ok, err, panic, ltb,
  if◌then◌else◌,
}
use attenuate_agent.Prelude.Options.{◌>>=◌}
use attenuate_agent.External.Json.{Json}
use attenuate_agent.Tools.{ToolCall, fs_read, fs_write}
use attenuate_agent.Agent.Chat.{RawFunctionCall}

module _ (json : Json) where
  open json use {Value}

  -- `args.get(key)?.as_str()?.to_string()`
  unfoldable pub str_argument : Value → Text → Option Text
  str_argument args key = do value ← json.get args key; json.as_str value

  -- `.filter_map(|v| v.as_str().map(..)).collect()`
  unfoldable pub filter_str : List Value → List Text
  filter_str [] = []
  filter_str (v ∷ vs) = elim (json.as_str v) [ none ↦ filter_str vs | some s ↦ s ∷ filter_str vs ]

  -- `u16::try_from(port).ok()`
  unfoldable pub try_port : ℕ → Option ℕ
  try_port n = if ltb n (2 ^ 16) then some n else none

  -- The arms of `match func.name.as_str()`.
  unfoldable pub parse_fs_read : Value → Option ToolCall
  unfolding str_argument
  parse_fs_read args = do path ← str_argument args (text "path"); some (fs_read path)

  unfoldable pub parse_fs_write : Value → Option ToolCall
  unfolding str_argument
  parse_fs_write args = do
    path ← str_argument args (text "path")
    contents ← str_argument args (text "contents")
    some (fs_write path contents)

  unfoldable pub parse_exec : Value → Option ToolCall
  unfolding str_argument filter_str
  parse_exec args = do
    binary ← str_argument args (text "binary")
    args_value ← json.get args (text "args")
    args_arr ← json.as_array args_value
    some (ToolCall.exec binary (filter_str args_arr))

  unfoldable pub parse_network_call : Value → Option ToolCall
  unfolding str_argument try_port
  parse_network_call args = do
    host ← str_argument args (text "host")
    port_value ← json.get args (text "port")
    port_u64 ← json.as_u64 port_value
    port ← try_port port_u64
    payload ← str_argument args (text "payload")
    some (ToolCall.network host port payload)

  unfoldable pub parse_arguments : Text → Value → Option ToolCall
  unfolding parse_fs_read parse_fs_write parse_exec parse_network_call
  parse_arguments name args =
      if text_eq name (text "fs_read")
      then parse_fs_read args
      else if text_eq name (text "fs_write")
      then parse_fs_write args
      else if text_eq name (text "exec")
      then parse_exec args
      else if text_eq name (text "network")
      then parse_network_call args
      else none

  -- `serde_json::from_str(..).ok()?`
  unfoldable pub parsed_arguments : Result Text Value → Option Value
  parsed_arguments (ok args) = some args
  parsed_arguments (err e) = none
  parsed_arguments panic = none

  unfoldable pub parse_raw_tool_call : RawFunctionCall → Option ToolCall
  unfolding parse_arguments parsed_arguments
  parse_raw_tool_call func = do
    args ← parsed_arguments (json.from_str func.arguments)
    parse_arguments func.name args
