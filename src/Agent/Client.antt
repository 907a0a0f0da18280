-- ===== src/Agent/Client.antt =====
-- `OpenAiPrincipalClient` of agent/src/lib.rs: its conversation and its turns.
pub mod Conversation
pub mod Ingest
pub mod Exchange
pub mod Dialogue
pub mod Fetch
use attenuate_agent.Prelude.{
  ℕ, zero, suc, Bool, true, false, not, ◌&&◌, ◌||◌, Option, none, some, List, [], ◌∷◌, ◌++◌, Text,
  text, text_eq, Result, ok, err, panic, ◌==◌, if◌then◌else◌,
}
use attenuate_agent.Prelude.Runs.{Run, continue, pure, lift, ◌>>=◌, ◌>>◌}
use attenuate_agent.External.Json.{Json}
use attenuate_agent.External.Http.{Http}
use attenuate_agent.Tools.{ToolCall}
use attenuate_agent.Agent.Principal.{Principal}
use attenuate_agent.Agent.Chat.{
  RawFunctionCall, RawToolCall, ChatMessage, AssistantMessage, ChatChoice, ChatResponse,
  ChatRequest, build_demo_tools,
}
use attenuate_agent.Agent.Chat.Parse.{parse_raw_tool_call}
use attenuate_agent.Agent.Chat.Post.{post_chat}

-- `MAX_UNPARSEABLE_RETRIES`
abbrev pub max_unparseable_retries : ℕ
max_unparseable_retries = 3

-- `DEFAULT_MAX_TURNS`
abbrev pub default_max_turns : ℕ
default_max_turns = 16

pub record OpenAiPrincipalClient : Type 0 where
  pub base_url : Text
  pub model : Text
  pub api_key : Option Text
  pub messages : List ChatMessage

unfoldable pub client_new : Text → Text → Option Text → List ChatMessage → OpenAiPrincipalClient
client_new base_url model api_key initial_messages = record {
  base_url = base_url;
  model = model;
  api_key = api_key;
  messages = initial_messages;
}

unfoldable pub push_message : ChatMessage → OpenAiPrincipalClient → OpenAiPrincipalClient
push_message m c = record c { messages = c.messages ++ (m ∷ []) }

abbrev pub tool_result_message : Text → Text → ChatMessage
tool_result_message call_id content = record {
  role = text "tool";
  content = some content;
  tool_calls = none;
  tool_call_id = some call_id;
}

unfoldable pub add_tool_result : Text → Text → OpenAiPrincipalClient → OpenAiPrincipalClient
unfolding push_message
add_tool_result call_id content = push_message (tool_result_message call_id content)

-- `None` for no calls.
unfoldable pub replayed_calls : List RawToolCall → Option (List RawToolCall)
replayed_calls [] = none
replayed_calls (raw ∷ raws) = some (raw ∷ raws)

abbrev pub assistant_message : AssistantMessage → ChatMessage
assistant_message a = record {
  role = text "assistant";
  content = a.content;
  tool_calls = replayed_calls a.tool_calls;
  tool_call_id = none;
}

unfoldable pub has_calls : List RawToolCall → Bool
has_calls [] = false
has_calls (raw ∷ raws) = true

unfoldable pub is_some : Option Text → Bool
is_some none = false
is_some (some s) = true

unfoldable pub record_turn : AssistantMessage → OpenAiPrincipalClient → OpenAiPrincipalClient
unfolding push_message has_calls is_some
record_turn a c =
    if has_calls a.tool_calls || is_some a.content then push_message (assistant_message a) c else c

unfoldable pub unparseable : Text → Text
unparseable name =
    text "ERROR: unparseable or unknown tool call '"
    ++ (name ++ text "' (bad arguments or unsupported tool)")

pub data TurnOutcome : Type 0 where
  calls : List (ToolCall × Text) → TurnOutcome
  done : TurnOutcome
  retry_after_unparseable : TurnOutcome

unfoldable pub outcome_of : List (ToolCall × Text) → Bool → TurnOutcome
outcome_of (call ∷ rest) emitted = calls (call ∷ rest)
outcome_of [] true = retry_after_unparseable
outcome_of [] false = done

module _ (json : Json) where
  -- The loop over the tool calls of a turn.
  unfoldable pub ingest_calls :
      List RawToolCall → OpenAiPrincipalClient → List (ToolCall × Text) × OpenAiPrincipalClient
  unfolding add_tool_result
  ingest_calls [] c = ([], c)
  ingest_calls (raw ∷ raws) c = elim (parse_raw_tool_call json raw.function) [
    | some call ↦ let (cs, c') = ingest_calls raws c in ((call, raw.id) ∷ cs, c')
    | none ↦ ingest_calls raws (add_tool_result raw.id (unparseable raw.function.name) c)
  ]

  unfoldable pub ingest_assistant :
      AssistantMessage → OpenAiPrincipalClient → List (ToolCall × Text) × OpenAiPrincipalClient
  unfolding ingest_calls record_turn
  ingest_assistant a c = ingest_calls a.tool_calls (record_turn a c)

  unfoldable pub classify_assistant :
      AssistantMessage → OpenAiPrincipalClient → TurnOutcome × OpenAiPrincipalClient
  unfolding ingest_assistant outcome_of has_calls
  classify_assistant a c =
      let (cs, c') = ingest_assistant a c in (outcome_of cs (has_calls a.tool_calls), c')

  module _ (http : Http (ChatRequest json) ChatResponse) where
    open http use {Server}

    -- The client and what answers its requests.
    abbrev pub Self : Type 0
    Self = OpenAiPrincipalClient × Server

    -- `post_chat(..)?` with the client's settings and conversation.
    unfoldable pub ask : Run Self Text AssistantMessage
    unfolding post_chat
    ask (c, net) =
        let (r, net') = post_chat json http c.base_url c.model c.api_key c.messages net in
        (r, (c, net'))

    -- The arms of `match self.classify_assistant(assistant)`.
    unfoldable pub after_turn :
        Run Self Text (List (ToolCall × Text))
        → TurnOutcome
        → Run Self Text (List (ToolCall × Text))
    after_turn again (calls cs) = pure cs
    after_turn again done = pure []
    after_turn again retry_after_unparseable = again

    unfoldable pub classified :
        Run Self Text (List (ToolCall × Text))
        → AssistantMessage
        → Run Self Text (List (ToolCall × Text))
    unfolding after_turn classify_assistant
    classified again a (c, net) =
        let (outcome, c') = classify_assistant a c in after_turn again outcome (c', net)

    -- `for _ in 0..MAX_UNPARSEABLE_RETRIES`
    unfoldable pub retry : ℕ → Run Self Text (List (ToolCall × Text))
    unfolding ask classified
    retry zero = pure []
    retry (suc n) = do assistant ← ask; classified (retry n) assistant

    unfoldable pub next_tool_calls : Run Self Text (List (ToolCall × Text))
    unfolding retry
    next_tool_calls = retry max_unparseable_retries

    abbrev pub openai : Principal
    openai = record {
      Self = Self;
      next_tool_calls = next_tool_calls;
      add_tool_result = λ id content s. (add_tool_result id content s.0, s.1);
    }
