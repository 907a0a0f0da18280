-- ===== src/Agent/Client/Fetch.antt =====
-- The stateless `fetch_tool_calls_from_model` and the stateful client (agent/src/lib.rs).
use attenuate_agent.Prelude.{Option, List, [], ◌∷◌, Text, Result, ok, err, panic, ◌≡◌, ◌≢◌, refl}
use attenuate_agent.Prelude.Runs.{continue}
use attenuate_agent.External.Json.{Json}
use attenuate_agent.External.Http.{Http}
use attenuate_agent.Tools.{ToolCall}
use attenuate_agent.Agent.Chat.{ChatMessage, AssistantMessage, ChatResponse, ChatRequest}
use attenuate_agent.Agent.Chat.Post.{parsed_calls, post_chat, fetch_tool_calls_from_model}
use attenuate_agent.Agent.Client.{
  OpenAiPrincipalClient, outcome_of, has_calls, client_new, ingest_assistant, classify_assistant,
  Self, ask, after_turn, classified, retry, next_tool_calls,
}
use attenuate_agent.Agent.Client.Ingest.{ingest_calls-parsed_calls}

module _ (json : Json) (http : Http (ChatRequest json) ChatResponse) where
  -- The result of a turn and the server behind it, without the client.
  abbrev pub Agrees :
      Result Text (List (ToolCall × Text)) × http.Server
      → Result Text (List (ToolCall × Text)) × Self json http
      → Type 0
  Agrees (r, net) (q, s) = (q ≡ r) × (s.1 ≡ net)

  after_turn-Agrees :
      (cs : List (ToolCall × Text)) (a : AssistantMessage)
      (again : Self json http → Result Text (List (ToolCall × Text)) × Self json http)
      (s : Self json http)
      → ◌≢◌ {A = Result Text (List (ToolCall × Text))} (ok cs) (ok [])
      → Agrees (ok cs, s.1) (after_turn json http again (outcome_of cs (has_calls a.tool_calls)) s)
  unfolding after_turn outcome_of
  after_turn-Agrees [] a again s n = absurd (n refl)
  after_turn-Agrees (call ∷ cs) a again s n = (refl, refl)

  answered-Agrees :
      (c : OpenAiPrincipalClient) (p : Result Text AssistantMessage × http.Server)
      (again : Self json http → Result Text (List (ToolCall × Text)) × Self json http)
      → (continue p.0 (λ a net. (ok (parsed_calls json a.tool_calls), net)) p.1).0 ≢ ok []
      → Agrees
          (continue p.0 (λ a net. (ok (parsed_calls json a.tool_calls), net)) p.1)
          (continue p.0 (classified json http again) (c, p.1))
  unfolding classified classify_assistant ingest_assistant
  answered-Agrees c (ok a, net) again n = rw (ingest_calls-parsed_calls json a.tool_calls) (
      after_turn-Agrees (parsed_calls json a.tool_calls) a again
        ((classify_assistant json a c).1, net) n)
  answered-Agrees c (err e, net) again n = (refl, refl)
  answered-Agrees c (panic, net) again n = (refl, refl)

  -- Where the stateless call fails, or returns some calls to execute, the first turn of a new client
  -- with the same settings and messages returns the same and does the same to what answers the requests.
  pub fetch_tool_calls_from_model-next_tool_calls :
      (base_url model : Text) (api_key : Option Text) (messages : List ChatMessage)
      (net : http.Server)
      → (fetch_tool_calls_from_model json http base_url model api_key messages net).0 ≢ ok []
      → Agrees
          (fetch_tool_calls_from_model json http base_url model api_key messages net)
          (next_tool_calls json http (client_new base_url model api_key messages, net))
  unfolding fetch_tool_calls_from_model next_tool_calls retry ask client_new
  fetch_tool_calls_from_model-next_tool_calls base_url model api_key messages net n =
      answered-Agrees (client_new base_url model api_key messages)
        (post_chat json http base_url model api_key messages net) (retry json http 2) n
