-- ===== src/Tests/Dialogues.antt =====
-- The theorems on the live principal at a short dialogue, with answers that are kept in a list.
use attenuate_agent.Prelude.{
  ℕ, suc, ◌+◌, ◌*◌, ◌^◌, ◌<◌, Option, none, some, List, [], ◌∷◌, In, Text, text, Result, ok, err,
  panic, true, ◌≡◌, ◌≢◌, refl, ◌⊎◌, arith,
}
use attenuate_agent.External.Http.{Http}
use attenuate_agent.Tools.{ToolCall, tool_name}
use attenuate_agent.Agent.Principal.{Session, run_principal}
use attenuate_agent.Agent.Chat.{
  RawFunctionCall, ChatResponse, ChatRequest, build_demo_initial_messages,
}
use attenuate_agent.Agent.Chat.Parse.{parse_raw_tool_call}
use attenuate_agent.Agent.Chat.Post.{fetch_tool_calls_from_model}
use attenuate_agent.Agent.Chat.Advertised.{advertised, parse_raw_tool_call-HasPort}
use attenuate_agent.Agent.Chat.Schema.{encode, IsAdvertised, parse_raw_tool_call-encode}
use attenuate_agent.Agent.Client.{OpenAiPrincipalClient, openai, client_new, next_tool_calls}
use attenuate_agent.Agent.Client.Conversation.{IsAnswered}
use attenuate_agent.Agent.Client.Ingest.{Continues}
use attenuate_agent.Agent.Client.Dialogue.{
  build_demo_initial_messages-IsAnswered, run_principal-IsAnswered,
}
use attenuate_agent.Agent.Client.Fetch.{Agrees, fetch_tool_calls_from_model-next_tool_calls}
use attenuate_agent.Tests.Jsons.{small_json, small_json-IsLawful}
use attenuate_agent.Tests.Machine.{machine, crates, world}
use attenuate_agent.Tests.Sessions.{orchestrator}

-- A server that gives the answers of a list, and then refuses.
abbrev pub answer : List ChatResponse → Result Text ChatResponse × List ChatResponse
answer [] = (err (text "connection refused"), [])
answer (a ∷ rest) = (ok a, rest)

abbrev pub listed : Http (ChatRequest small_json) ChatResponse
listed = record {
  Client = Unit;
  Response = ChatResponse;
  Server = List ChatResponse;
  build = λ seconds. ok tt;
  send = λ client url headers body net. answer net;
  status = λ resp. text "200 OK";
  is_success = λ resp. true;
  read_text = λ resp net. (ok (text "body"), net);
  read_json = λ resp net. (ok resp, net);
}

abbrev connect_call : ToolCall
connect_call = ToolCall.network (text "example.com") 443 (text "hello")

parse_raw_tool_call-encode_example :
    IsAdvertised small_json connect_call
    × (parse_raw_tool_call small_json (encode small_json small_json-IsLawful connect_call)
        ≡ some connect_call)
parse_raw_tool_call-encode_example =
    parse_raw_tool_call-encode small_json small_json-IsLawful connect_call (omega arith)

-- `{ "path": "/work/a" }` in the small JSON.
abbrev pub read_call : RawFunctionCall
unfolding text
read_call = record {
  name = text "fs_read";
  arguments = 2 ∷ 113 ∷ 98 ∷ 117 ∷ 105 ∷ 0 ∷ 1 ∷ 48 ∷ 120 ∷ 112 ∷ 115 ∷ 108 ∷ 48 ∷ 98 ∷ 0 ∷ [];
}

parse_raw_tool_call-HasPort_example :
    (tool_name (ToolCall.fs_read (text "/work/a")) ≡ text "fs_read")
    × Unit {0}
    × In (text "fs_read") (advertised small_json)
unfolding parse_raw_tool_call text attenuate_agent.Prelude.text_eq
parse_raw_tool_call-HasPort_example =
    parse_raw_tool_call-HasPort small_json read_call {call = ToolCall.fs_read (text "/work/a")} refl

-- A read, a call that is none of the tools and one with bad arguments; then the last words.
abbrev pub answers : List ChatResponse
unfolding read_call
answers =
    record {
      choices =
          record {
            message = record {
              tool_calls =
                  record { type = text "function"; id = text "a"; function = read_call }
                  ∷ record {
                    type = text "function";
                    id = text "b";
                    function = record { name = text "rm"; arguments = 2 ∷ [] };
                  }
                  ∷ record {
                    type = text "function";
                    id = text "a";
                    function = record { name = text "fs_read"; arguments = 0 ∷ [] };
                  }
                  ∷ [];
              content = none;
            };
          }
          ∷ [];
    }
    ∷ record {
      choices = record { message = record { tool_calls = []; content = some (text "done") } } ∷ [];
    }
    ∷ []

abbrev client : OpenAiPrincipalClient
unfolding client_new build_demo_initial_messages
client =
    client_new (text "http://localhost/v1/") (text "glm") (some (text "no-key"))
      (build_demo_initial_messages (text "tidy up"))

abbrev live : Session machine crates (openai small_json listed)
unfolding client answers
live = record { state = (orchestrator, world); principal = (client, answers); outcomes = [] }

client-IsAnswered : IsAnswered client.messages
unfolding client client_new
client-IsAnswered = build_demo_initial_messages-IsAnswered (text "tidy up")

run_principal-IsAnswered_example :
    Continues client (run_principal machine crates (openai small_json listed) 2 live).1.principal.0
    × (((run_principal machine crates (openai small_json listed) 2 live).0 ≡ panic)
        ⊎ IsAnswered
            (run_principal machine crates (openai small_json listed) 2 live).1.principal.0.messages)
unfolding live client
run_principal-IsAnswered_example =
    run_principal-IsAnswered machine crates small_json listed 2 live client-IsAnswered

fetched :
    (fetch_tool_calls_from_model small_json listed
      (text "http://localhost")
      (text "glm")
      none
      []
      answers).0
    ≡ ok ((ToolCall.fs_read (text "/work/a"), text "a") ∷ [])
unfolding fetch_tool_calls_from_model parse_raw_tool_call text attenuate_agent.Prelude.text_eq
    answers
fetched = refl

fetched_some :
    (fetch_tool_calls_from_model small_json listed
      (text "http://localhost")
      (text "glm")
      none
      []
      answers).0
    ≢ ok []
fetched_some h = absurd (ground (arith, fetched, h))

fetch_tool_calls_from_model-next_tool_calls_example :
    Agrees small_json listed
      (fetch_tool_calls_from_model small_json listed
        (text "http://localhost")
        (text "glm")
        none
        []
        answers)
      (next_tool_calls small_json listed
        (client_new (text "http://localhost") (text "glm") none [], answers))
fetch_tool_calls_from_model-next_tool_calls_example =
    fetch_tool_calls_from_model-next_tool_calls small_json listed (text "http://localhost")
      (text "glm") none [] answers fetched_some
