-- ===== src/Agent/Chat/Schema.antt =====
-- Calls written as the tools that the model is told of say (agent/src/lib.rs).
use attenuate_agent.Prelude.{
  ℕ, ◌^◌, ◌<◌, some, List, [], ◌∷◌, map, Text, text, text_eq, In, inl, inr, ◌≡◌, refl, ◌∙◌, arith,
}
use attenuate_agent.External.Json.{Json, IsLawful, HasKeys, entry}
use attenuate_agent.Tools.{ToolCall, fs_read, fs_write, tool_name}
use attenuate_agent.Agent.Chat.{
  RawFunctionCall, OpenAiTool, build_demo_tools, demo_tool, object_schema, typed,
}
use attenuate_agent.Agent.Chat.Parse.{
  str_argument, filter_str, try_port, parse_fs_read, parse_fs_write, parse_exec, parse_network_call,
  parse_arguments, parsed_arguments, parse_raw_tool_call,
}

-- The port of a call is a number of sixteen bits.
abbrev pub HasPort : ToolCall → Type 0
HasPort (fs_read path) = Unit
HasPort (fs_write path contents) = Unit
HasPort (ToolCall.exec binary args) = Unit
HasPort (ToolCall.network host port payload) = port < 2 ^ 16

-- An argument of a call.
pub data Argument : Type 0 where
  string : Text → Argument
  integer : ℕ → Argument
  strings : List Text → Argument

-- The arguments of a call, by name.
unfoldable pub arguments : ToolCall → List (Text × Argument)
arguments (fs_read path) = (text "path", string path) ∷ []
arguments (fs_write path contents) =
    (text "path", string path) ∷ (text "contents", string contents) ∷ []
arguments (ToolCall.exec binary args) =
    (text "binary", string binary) ∷ (text "args", strings args) ∷ []
arguments (ToolCall.network host port payload) =
    (text "host", string host) ∷ (text "port", integer port) ∷ (text "payload", string payload) ∷ []

-- What JSON Schema says of an object with such arguments: their names, their types, all required.
module _ (json : Json) where
  unfoldable pub type_schema : Argument → json.Value
  type_schema (string s) = json.object ((text "type", json.string (text "string")) ∷ [])
  type_schema (integer n) = json.object ((text "type", json.string (text "integer")) ∷ [])
  type_schema (strings ss) = json.object (
      (text "type", json.string (text "array"))
      ∷ (text "items", json.object ((text "type", json.string (text "string")) ∷ []))
      ∷ [])

  unfoldable pub schema : List (Text × Argument) → json.Value
  unfolding type_schema
  schema args = json.object (
      (text "type", json.string (text "object"))
      ∷ (
        text "properties",
        json.object (map (λ (arg : Text × Argument). (arg.0, type_schema arg.1)) args),
      )
      ∷ (text "required", json.array (map (λ (arg : Text × Argument). json.string arg.0) args))
      ∷ [])

  -- A tool that the model is told of has the name of the call, and the schema of its arguments.
  pub record IsAdvertised (call : ToolCall) : Type 0 where
    pub tool : OpenAiTool json
    pub listed : In tool (build_demo_tools json)
    pub same_name : tool.function.name ≡ tool_name call
    pub same_schema : tool.function.parameters ≡ schema (arguments call)

  call-IsAdvertised : (call : ToolCall) → IsAdvertised call
  unfolding build_demo_tools demo_tool object_schema typed schema type_schema arguments tool_name
  call-IsAdvertised (fs_read path) = record {
    tool = _;
    listed = inl refl;
    same_name = refl;
    same_schema = refl;
  }
  call-IsAdvertised (fs_write path contents) = record {
    tool = _;
    listed = inr (inl refl);
    same_name = refl;
    same_schema = refl;
  }
  call-IsAdvertised (ToolCall.exec binary args) = record {
    tool = _;
    listed = inr (inr (inl refl));
    same_name = refl;
    same_schema = refl;
  }
  call-IsAdvertised (ToolCall.network host port payload) = record {
    tool = _;
    listed = inr (inr (inr (inl refl)));
    same_name = refl;
    same_schema = refl;
  }

module _ (json : Json) (l : IsLawful json) where
  unfoldable pub value : Argument → json.Value
  value (string s) = json.string s
  value (integer n) = l.number n
  value (strings ss) = json.array (map json.string ss)

  -- The call as a model writes it: its name, and its arguments as the text of an object.
  unfoldable pub encode : ToolCall → RawFunctionCall
  unfolding value
  encode call = record {
    name = tool_name call;
    arguments =
        l.to_string
          (json.object (map (λ (arg : Text × Argument). (arg.0, value arg.1)) (arguments call)));
  }

  unfoldable entries : ToolCall → List (Text × json.Value)
  unfolding arguments value
  entries call = map (λ (arg : Text × Argument). (arg.0, value arg.1)) (arguments call)

  filter_str-map : (ss : List Text) → filter_str json (map json.string ss) ≡ ss
  unfolding filter_str
  filter_str-map [] = refl
  filter_str-map (s ∷ ss) = rw (l.as_str-string s, filter_str-map ss) refl

  get-object_some :
      (es : List (Text × json.Value)) (key : Text) (v : json.Value)
      → HasKeys es
      → entry key es ≡ some v
      → json.get (json.object es) key ≡ some v
  get-object_some es key v h e = l.get-object es key h ∙ e

  str_argument-object :
      (es : List (Text × json.Value)) (key : Text) (s : Text)
      → HasKeys es
      → entry key es ≡ some (json.string s)
      → str_argument json (json.object es) key ≡ some s
  unfolding str_argument
  str_argument-object es key s h e =
      rw (get-object_some es key (json.string s) h e) (l.as_str-string s)

  parse_fs_read-object :
      (path : Text)
      → parse_fs_read json (json.object (entries (fs_read path))) ≡ some (fs_read path)
  unfolding parse_fs_read entries text entry
  parse_fs_read-object path =
      rw (str_argument-object (entries (fs_read path)) (text "path") path (refl, tt) refl) refl

  parse_fs_write-object :
      (path contents : Text)
      → parse_fs_write json (json.object (entries (fs_write path contents)))
        ≡ some (fs_write path contents)
  unfolding parse_fs_write entries text entry text_eq
  parse_fs_write-object path contents =
      let es = entries (fs_write path contents) in
      rw
        (
          str_argument-object es (text "path") path (refl, (refl, tt)) refl,
          str_argument-object es (text "contents") contents (refl, (refl, tt)) refl,
        )
        refl

  parse_exec-object :
      (binary : Text) (args : List Text)
      → parse_exec json (json.object (entries (ToolCall.exec binary args)))
        ≡ some (ToolCall.exec binary args)
  unfolding parse_exec entries text entry text_eq
  parse_exec-object binary args =
      let es = entries (ToolCall.exec binary args) in
      let values = map json.string args in
      rw
        (
          str_argument-object es (text "binary") binary (refl, (refl, tt)) refl,
          get-object_some es (text "args") (json.array values) (refl, (refl, tt)) refl,
          l.as_array-array values,
          filter_str-map args,
        )
        refl

  try_port_lem : (port : ℕ) → port < 2 ^ 16 → try_port json port ≡ some port
  unfolding try_port
  try_port_lem port h = ground arith

  parse_network_call-object :
      (host : Text) (port : ℕ) (payload : Text)
      → port < 2 ^ 16
      → parse_network_call json (json.object (entries (ToolCall.network host port payload)))
        ≡ some (ToolCall.network host port payload)
  unfolding parse_network_call entries text entry text_eq
  parse_network_call-object host port payload h =
      let es = entries (ToolCall.network host port payload) in
      let keys : HasKeys es = (refl, (refl, (refl, tt))) in
      rw
        (
          str_argument-object es (text "host") host keys refl,
          get-object_some es (text "port") (l.number port) keys refl,
          l.as_u64-number port (omega arith),
          try_port_lem port h,
          str_argument-object es (text "payload") payload keys refl,
        )
        refl

  parse_arguments-encode :
      (call : ToolCall)
      → HasPort call
      → parse_arguments json (tool_name call) (json.object (entries call)) ≡ some call
  unfolding parse_arguments tool_name text text_eq
  parse_arguments-encode (fs_read path) h = parse_fs_read-object path
  parse_arguments-encode (fs_write path contents) h = parse_fs_write-object path contents
  parse_arguments-encode (ToolCall.exec binary args) h = parse_exec-object binary args
  parse_arguments-encode (ToolCall.network host port payload) h =
      parse_network_call-object host port payload h

  -- Every call is one of a tool that the model is told of, with the name of that tool and arguments of
  -- the names and types that its advertised parameters require; and as a model writes it so, it is
  -- parsed as that call, if its port is a number of sixteen bits.
  pub parse_raw_tool_call-encode :
      (call : ToolCall)
      → HasPort call
      → IsAdvertised json call × (parse_raw_tool_call json (encode call) ≡ some call)
  unfolding parse_raw_tool_call parsed_arguments encode entries
  parse_raw_tool_call-encode call h = (
    call-IsAdvertised json call,
    rw (l.from_str-to_string (json.object (entries call))) (parse_arguments-encode call h),
  )
