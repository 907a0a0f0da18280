-- ===== src/Agent/Client/Ingest.antt =====
-- What `ingest_assistant` and `classify_assistant` make of a turn of the model (agent/src/lib.rs).
use attenuate_agent.Prelude.{
  false, List, [], ◌∷◌, ◌++◌, map, Text, ◌≡◌, refl, sym, ap, ◌∙◌, subst, Bool-cases, Option-cases,
  inl, inr, ◌||◌, arith,
}
use mathlib.Core.List.{append_assoc, append-nil}
use attenuate_agent.External.Json.{Json}
use attenuate_agent.Tools.{ToolCall}
use attenuate_agent.Agent.Chat.{RawToolCall, ChatMessage, AssistantMessage}
use attenuate_agent.Agent.Chat.Parse.{parse_raw_tool_call}
use attenuate_agent.Agent.Chat.Post.{parsed_calls}
use attenuate_agent.Agent.Client.{
  OpenAiPrincipalClient, TurnOutcome, calls, done, retry_after_unparseable, push_message,
  add_tool_result, assistant_message, tool_result_message, has_calls, is_some, record_turn,
  unparseable, outcome_of, ingest_calls, ingest_assistant, classify_assistant,
}
use attenuate_agent.Agent.Client.Conversation.{
  Open, ids_of, count-middle, Open-count, Open-tool_result_message, Open-assistant_message,
}

-- The client `c` has the settings of `c₀`, and its conversation begins with that of `c₀`.
pub record Continues (c₀ c : OpenAiPrincipalClient) : Type 0 where
  pub same_base_url : c.base_url ≡ c₀.base_url
  pub same_model : c.model ≡ c₀.model
  pub same_api_key : c.api_key ≡ c₀.api_key
  pub added : List ChatMessage
  pub extends : c.messages ≡ c₀.messages ++ added

pub Continues-refl : (c : OpenAiPrincipalClient) → Continues c c
Continues-refl c = record {
  same_base_url = refl;
  same_model = refl;
  same_api_key = refl;
  added = [];
  extends = sym (append-nil c.messages);
}

push_message-Continues :
    (c₀ c : OpenAiPrincipalClient) (m : ChatMessage)
    → Continues c₀ c
    → Continues c₀ (push_message m c)
unfolding push_message
push_message-Continues c₀ c m h = record {
  same_base_url = h.same_base_url;
  same_model = h.same_model;
  same_api_key = h.same_api_key;
  added = h.added ++ (m ∷ []);
  extends = ap (λ ms. ms ++ (m ∷ [])) h.extends ∙ append_assoc c₀.messages h.added (m ∷ []);
}

pub add_tool_result-Continues :
    (c₀ c : OpenAiPrincipalClient) (id content : Text)
    → Continues c₀ c
    → Continues c₀ (add_tool_result id content c)
unfolding add_tool_result
add_tool_result-Continues c₀ c id content h =
    push_message-Continues c₀ c (tool_result_message id content) h

pub add_tool_result-Open :
    (c : OpenAiPrincipalClient) (id content : Text) (ids : List Text)
    → Open c.messages (id ∷ ids)
    → Open (add_tool_result id content c).messages ids
unfolding add_tool_result push_message
add_tool_result-Open c id content ids h = Open-tool_result_message c.messages id content ids h

record_turn-Continues :
    (c₀ c : OpenAiPrincipalClient) (a : AssistantMessage)
    → Continues c₀ c
    → Continues c₀ (record_turn a c)
unfolding record_turn
record_turn-Continues c₀ c a h = elim (Bool-cases (has_calls a.tool_calls || is_some a.content)) [
  | inl e ↦ rw e (push_message-Continues c₀ c (assistant_message a) h)
  | inr e ↦ rw e h
]

no_calls : (raws : List RawToolCall) → has_calls raws ≡ false → raws ≡ []
unfolding has_calls
no_calls [] h = refl
no_calls (raw ∷ raws) h = cc

record_turn-Open :
    (c : OpenAiPrincipalClient) (a : AssistantMessage)
    → Open c.messages []
    → Open (record_turn a c).messages (ids_of a.tool_calls)
unfolding record_turn push_message has_calls
record_turn-Open c a h = elim (Bool-cases (has_calls a.tool_calls || is_some a.content)) [
  | inl e ↦ rw e (Open-assistant_message c.messages a h)
  | inr e ↦ rw (e, no_calls a.tool_calls (ground arith)) h
]

-- The ids of the calls that are to be executed.
abbrev pub called_ids : List (ToolCall × Text) → List Text
called_ids cs = map (λ (c : ToolCall × Text). c.1) cs

-- The ids that a turn leaves pending.
abbrev pub pending_ids : TurnOutcome → List Text
pending_ids (calls cs) = called_ids cs
pending_ids done = []
pending_ids retry_after_unparseable = []

module _ (json : Json) where
  pub ingest_calls-parsed_calls :
      (raws : List RawToolCall) (c : OpenAiPrincipalClient)
      → (ingest_calls json raws c).0 ≡ parsed_calls json raws
  unfolding ingest_calls parsed_calls
  ingest_calls-parsed_calls [] c = refl
  ingest_calls-parsed_calls (raw ∷ raws) c =
      elim (Option-cases (parse_raw_tool_call json raw.function)) [
        | inl e ↦ rw (e, ingest_calls, parsed_calls) (ingest_calls-parsed_calls raws _)
        | inr (call, e) ↦
            rw (e, ingest_calls, parsed_calls)
              (ap (λ cs. (call, raw.id) ∷ cs) (ingest_calls-parsed_calls raws c))
      ]

  ingest_calls-Continues :
      (raws : List RawToolCall) (c₀ c : OpenAiPrincipalClient)
      → Continues c₀ c
      → Continues c₀ (ingest_calls json raws c).1
  unfolding ingest_calls
  ingest_calls-Continues [] c₀ c h = h
  ingest_calls-Continues (raw ∷ raws) c₀ c h =
      elim (Option-cases (parse_raw_tool_call json raw.function)) [
        | inl e ↦
            let content = unparseable raw.function.name in
            rw (e, ingest_calls)
              (ingest_calls-Continues raws c₀ (add_tool_result raw.id content c)
                (add_tool_result-Continues c₀ c raw.id content h))
        | inr (call, e) ↦ rw (e, ingest_calls) (ingest_calls-Continues raws c₀ c h)
      ]

  -- Calls that cannot be parsed are answered at once; `kept` are the ids of those parsed before.
  ingest_calls-Open :
      (raws : List RawToolCall) (c : OpenAiPrincipalClient) (kept : List Text)
      → Open c.messages (ids_of raws ++ kept)
      → Open (ingest_calls json raws c).1.messages (called_ids (ingest_calls json raws c).0 ++ kept)
  unfolding ingest_calls
  ingest_calls-Open [] c kept h = h
  ingest_calls-Open (raw ∷ raws) c kept h =
      elim (Option-cases (parse_raw_tool_call json raw.function)) [
        | inl e ↦
            let content = unparseable raw.function.name in
            rw (e, ingest_calls)
              (ingest_calls-Open raws (add_tool_result raw.id content c) kept
                (add_tool_result-Open c raw.id content (ids_of raws ++ kept) h))
        | inr (call, e) ↦
            let cs = called_ids (ingest_calls json raws c).0 in
            rw (e, ingest_calls)
              (Open-count (raw.id ∷ (cs ++ kept)) (λ x. count-middle x raw.id cs kept)
                (ingest_calls-Open raws c (raw.id ∷ kept) (
                  Open-count (ids_of raws ++ (raw.id ∷ kept))
                    (λ x. sym (count-middle x raw.id (ids_of raws) kept)) h)))
      ]

  pub classify_assistant-Continues :
      (a : AssistantMessage) (c₀ c : OpenAiPrincipalClient)
      → Continues c₀ c
      → Continues c₀ (classify_assistant json a c).1
  unfolding classify_assistant ingest_assistant
  classify_assistant-Continues a c₀ c h =
      ingest_calls-Continues a.tool_calls c₀ (record_turn a c) (record_turn-Continues c₀ c a h)

  outcome_of-pending_ids :
      (ms : List ChatMessage) (cs : List (ToolCall × Text)) (raws : List RawToolCall)
      → Open ms (called_ids cs ++ [])
      → Open ms (pending_ids (outcome_of cs (has_calls raws)))
  unfolding outcome_of has_calls
  outcome_of-pending_ids ms [] [] h = h
  outcome_of-pending_ids ms [] (raw ∷ raws) h = h
  outcome_of-pending_ids ms (call ∷ cs) raws h =
      subst (λ ids. Open ms ids) (append-nil (called_ids (call ∷ cs))) h

  -- Of a complete conversation, a turn leaves exactly the calls pending that are to be executed.
  pub classify_assistant-Open :
      (a : AssistantMessage) (c : OpenAiPrincipalClient)
      → Open c.messages []
      → Open (classify_assistant json a c).1.messages (pending_ids (classify_assistant json a c).0)
  unfolding classify_assistant ingest_assistant
  classify_assistant-Open a c h =
      outcome_of-pending_ids _ (ingest_calls json a.tool_calls (record_turn a c)).0 a.tool_calls (
        ingest_calls-Open a.tool_calls (record_turn a c) [] (
          subst (λ ids. Open (record_turn a c).messages ids)
            (sym (append-nil (ids_of a.tool_calls))) (record_turn-Open c a h)))
