-- ===== src/Agent/Chat/Post.antt =====
-- `post_chat` and `fetch_tool_calls_from_model` of agent/src/lib.rs: one request to the model.
use attenuate_agent.Prelude.{
  ℕ, not, ◌&&◌, Option, none, some, List, [], ◌∷◌, ◌++◌, Text, text, text_eq, Result, ok, err,
  panic, ◌==◌, if◌then◌else◌,
}
use attenuate_agent.Prelude.Runs.{Run, pure, lift, ◌>>=◌}
use attenuate_agent.External.Json.{Json}
use attenuate_agent.External.Http.{Http}
use attenuate_agent.Tools.{ToolCall}
use attenuate_agent.Agent.Chat.{
  RawToolCall, ChatMessage, AssistantMessage, ChatChoice, ChatResponse, ChatRequest,
  build_demo_tools,
}
use attenuate_agent.Agent.Chat.Parse.{parse_raw_tool_call}

-- `trim_end_matches('/')`
unfoldable pub trim_end_slashes : Text → Text
trim_end_slashes [] = []
trim_end_slashes (c ∷ s) = elim (trim_end_slashes s) [
  | [] ↦ if c == 47 then [] else c ∷ []
  | d ∷ r ↦ c ∷ d ∷ r
]

unfoldable pub chat_url : Text → Text
unfolding trim_end_slashes
chat_url base_url = trim_end_slashes base_url ++ text "/chat/completions"

-- The headers of a request: a key is sent if it is not empty and not `no-key`.
unfoldable pub authorization : Option Text → List (Text × Text)
authorization none = []
authorization (some key) =
    if not (text_eq key []) && not (text_eq key (text "no-key"))
    then (text "Authorization", text "Bearer " ++ key) ∷ []
    else []

unfoldable pub headers : Option Text → List (Text × Text)
unfolding authorization
headers api_key = (text "Content-Type", text "application/json") ∷ authorization api_key

-- The first choice's message, or one with nothing in it.
unfoldable pub first_message : List ChatChoice → AssistantMessage
first_message [] = record { tool_calls = []; content = none }
first_message (choice ∷ choices) = choice.message

-- The error of an answer that is no success, with what of its text can be read.
unfoldable pub api_error : Text → Result Text Text → Result Text AssistantMessage
api_error status (ok body) = err (text "model API error (" ++ (status ++ (text "): " ++ body)))
api_error status (err e) = err (text "model API error (" ++ (status ++ text "): "))
api_error status panic = panic

abbrev pub timeout_seconds : ℕ
timeout_seconds = 30

module _ (json : Json) where
  -- The `filter_map` of `fetch_tool_calls_from_model`.
  unfoldable pub parsed_calls : List RawToolCall → List (ToolCall × Text)
  parsed_calls [] = []
  parsed_calls (raw ∷ raws) = elim (parse_raw_tool_call json raw.function) [
    | some call ↦ (call, raw.id) ∷ parsed_calls raws
    | none ↦ parsed_calls raws
  ]

  unfoldable pub chat_request : Text → List ChatMessage → ChatRequest json
  unfolding build_demo_tools
  chat_request model messages = record {
    model = model;
    messages = messages;
    tools = build_demo_tools json;
    tool_choice = text "auto";
    temperature = 0;
    seed = some 42;
  }

  module _ (http : Http (ChatRequest json) ChatResponse) where
    open http use {Response, Server}

    -- What follows `builder.send()?`.
    unfoldable pub read_response : Response → Run Server Text AssistantMessage
    unfolding api_error first_message
    read_response resp =
        if http.is_success resp
        then (do chat ← http.read_json resp; pure (first_message chat.choices))
        else λ net.
            let (body, net') = http.read_text resp net in (api_error (http.status resp) body, net')

    unfoldable pub post_chat :
        Text → Text → Option Text → List ChatMessage → Run Server Text AssistantMessage
    unfolding read_response chat_request chat_url headers
    post_chat base_url model api_key messages = do
      client ← lift (http.build timeout_seconds)
      resp ← http.send client (chat_url base_url) (headers api_key) (chat_request model messages)
      read_response resp

    unfoldable pub fetch_tool_calls_from_model :
        Text → Text → Option Text → List ChatMessage → Run Server Text (List (ToolCall × Text))
    unfolding post_chat parsed_calls
    fetch_tool_calls_from_model base_url model api_key messages = do
      assistant ← post_chat base_url model api_key messages
      pure (parsed_calls assistant.tool_calls)
