-- ===== src/Agent/Chat/Advertised.antt =====
-- What is parsed of the calls of a model, for the tools that it is told of (agent/src/lib.rs).
use attenuate_agent.Prelude.{
  ℕ, ◌^◌, ◌<◌, Option, none, some, List, map, In, Text, text, text_eq, text_eq→eq, Bool-cases, ◌≡◌,
  refl, sym, subst, inl, inr, arith,
}
use attenuate_agent.Prelude.Options.{>>=-eq-some, some-injective}
use attenuate_agent.External.Json.{Json}
use attenuate_agent.Tools.{ToolCall, tool_name}
use attenuate_agent.Agent.Chat.{RawFunctionCall, OpenAiTool, build_demo_tools, demo_tool}
use attenuate_agent.Agent.Chat.Parse.{
  str_argument, try_port, parse_fs_read, parse_fs_write, parse_exec, parse_network_call,
  parse_arguments, parsed_arguments, parse_raw_tool_call,
}
use attenuate_agent.Agent.Chat.Schema.{HasPort}

-- A call that comes of the arm of a name: it has that name, and its port fits.
abbrev IsOf : Text → ToolCall → Type 0
IsOf name call = (tool_name call ≡ name) × HasPort call

named : {name word : Text} (call : ToolCall) → name ≡ word → IsOf word call → IsOf name call
named call q h = subst (λ n. IsOf n call) (sym q) h

none≢some : {call : ToolCall} → ◌≡◌ {A = Option ToolCall} none (some call) → ⊥
none≢some h = ground arith

module _ (json : Json) where
  parse_fs_read-IsOf :
      (args : json.Value) {call : ToolCall}
      → parse_fs_read json args ≡ some call
      → IsOf (text "fs_read") call
  unfolding parse_fs_read tool_name
  parse_fs_read-IsOf args h =
      let (path, e, q) = >>=-eq-some (str_argument json args (text "path")) _ h in
      subst (IsOf (text "fs_read")) (some-injective q) (refl, tt)

  parse_fs_write-IsOf :
      (args : json.Value) {call : ToolCall}
      → parse_fs_write json args ≡ some call
      → IsOf (text "fs_write") call
  unfolding parse_fs_write tool_name
  parse_fs_write-IsOf args h =
      let (path, e, k) = >>=-eq-some (str_argument json args (text "path")) _ h in
      let (contents, f, q) = >>=-eq-some (str_argument json args (text "contents")) _ k in
      subst (IsOf (text "fs_write")) (some-injective q) (refl, tt)

  parse_exec-IsOf :
      (args : json.Value) {call : ToolCall}
      → parse_exec json args ≡ some call
      → IsOf (text "exec") call
  unfolding parse_exec tool_name
  parse_exec-IsOf args h =
      let (binary, e, k) = >>=-eq-some (str_argument json args (text "binary")) _ h in
      let (value, f, m) = >>=-eq-some (json.get args (text "args")) _ k in
      let (values, g, q) = >>=-eq-some (json.as_array value) _ m in
      subst (IsOf (text "exec")) (some-injective q) (refl, tt)

  try_port-bound : (n : ℕ) {port : ℕ} → try_port json n ≡ some port → port < 2 ^ 16
  unfolding try_port
  try_port-bound n h = ground arith

  parse_network_call-IsOf :
      (args : json.Value) {call : ToolCall}
      → parse_network_call json args ≡ some call
      → IsOf (text "network") call
  unfolding parse_network_call tool_name
  parse_network_call-IsOf args h =
      let (host, e, k) = >>=-eq-some (str_argument json args (text "host")) _ h in
      let (value, f, m) = >>=-eq-some (json.get args (text "port")) _ k in
      let (number, g, n) = >>=-eq-some (json.as_u64 value) _ m in
      let (port, i, o) = >>=-eq-some (try_port json number) _ n in
      let (payload, j, q) = >>=-eq-some (str_argument json args (text "payload")) _ o in
      subst (IsOf (text "network")) (some-injective q) (refl, try_port-bound number i)

  -- The tools that the model is told of.
  abbrev pub advertised : List Text
  advertised = map (λ (tool : OpenAiTool json). tool.function.name) (build_demo_tools json)

  parse_arguments-IsOf :
      (name : Text) (args : json.Value) {call : ToolCall}
      → parse_arguments json name args ≡ some call
      → IsOf name call × In name advertised
  unfolding parse_arguments build_demo_tools demo_tool
  parse_arguments-IsOf name args {call} h = elim (Bool-cases (text_eq name (text "fs_read"))) [
    | inl e ↦
        let q = text_eq→eq name (text "fs_read") e in
        (named call q (parse_fs_read-IsOf args (rw e at h)), inl q)
    | inr e ↦ elim (Bool-cases (text_eq name (text "fs_write"))) [
      | inl f ↦
          let q = text_eq→eq name (text "fs_write") f in
          (named call q (parse_fs_write-IsOf args (rw (e, f) at h)), inr (inl q))
      | inr f ↦ elim (Bool-cases (text_eq name (text "exec"))) [
        | inl g ↦
            let q = text_eq→eq name (text "exec") g in
            (named call q (parse_exec-IsOf args (rw (e, f, g) at h)), inr (inr (inl q)))
        | inr g ↦ elim (Bool-cases (text_eq name (text "network"))) [
          | inl k ↦
              let q = text_eq→eq name (text "network") k in
              (
                named call q (parse_network_call-IsOf args (rw (e, f, g, k) at h)),
                inr (inr (inr (inl q))),
              )
          | inr k ↦ absurd (none≢some (rw (e, f, g, k) at h))
        ]
      ]
    ]
  ]

  -- Only calls of advertised tools are parsed, each as a call of the tool that it names, and the
  -- port of a parsed call is a number of sixteen bits.
  pub parse_raw_tool_call-HasPort :
      (func : RawFunctionCall) {call : ToolCall}
      → parse_raw_tool_call json func ≡ some call
      → (tool_name call ≡ func.name) × HasPort call × In func.name advertised
  unfolding parse_raw_tool_call
  parse_raw_tool_call-HasPort func h =
      let (args, e, k) = >>=-eq-some (parsed_arguments json (json.from_str func.arguments)) _ h in
      let ((n, p), i) = parse_arguments-IsOf func.name args k in (n, p, i)
