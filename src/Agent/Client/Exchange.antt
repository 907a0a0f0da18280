-- ===== src/Agent/Client/Exchange.antt =====
-- What a client sends in one turn, and how it leaves its conversation: `next_tool_calls` of
-- agent/src/lib.rs.
use attenuate_agent.Prelude.{
  ℕ, zero, suc, ◌+◌, ◌≤◌, List, [], Text, Result, ok, err, panic, sym, subst, arith, Bool-cases,
  inl, inr,
}
use attenuate_agent.Prelude.Runs.{continue-cases}
use attenuate_agent.External.Json.{Json}
use attenuate_agent.External.Http.{Http}
use attenuate_agent.Tools.{ToolCall}
use attenuate_agent.Agent.Chat.{ChatMessage, AssistantMessage, ChatResponse, ChatRequest}
use attenuate_agent.Agent.Chat.Post.{
  chat_url, headers, chat_request, read_response, post_chat, timeout_seconds,
}
use attenuate_agent.Agent.Client.{
  OpenAiPrincipalClient, TurnOutcome, calls, done, retry_after_unparseable, classify_assistant,
  Self, ask, after_turn, classified, retry,
}
use attenuate_agent.Agent.Client.Conversation.{Open, IsAnswered, Open-IsAnswered}
use attenuate_agent.Agent.Client.Ingest.{
  Continues, called_ids, pending_ids, classify_assistant-Continues, classify_assistant-Open,
}

module _ (json : Json) (http : Http (ChatRequest json) ChatResponse) where
  open http use {Server}

  -- What answers the requests after some of them with the settings of `c`, each with a conversation in which
  -- every tool call is answered, and after readings of the responses.
  pub data Exchanged (c : OpenAiPrincipalClient) (n : Server) : ℕ → Server → Type 0 where
    here : Exchanged c n zero n
    sends :
        {k : ℕ} {m : Server} (client : http.Client) (messages : List ChatMessage)
        → IsAnswered messages
        → Exchanged c n k m
        → Exchanged c n
            (suc k)
            (http.send client
              (chat_url c.base_url)
              (headers c.api_key)
              (chat_request json c.model messages)
              m).1
    reads_text :
        {k : ℕ} {m : Server} (resp : http.Response)
        → Exchanged c n k m
        → Exchanged c n k (http.read_text resp m).1
    reads_json :
        {k : ℕ} {m : Server} (resp : http.Response)
        → Exchanged c n k m
        → Exchanged c n k (http.read_json resp m).1

  -- At most `k` requests.
  abbrev pub Within : OpenAiPrincipalClient → Server → ℕ → Server → Type 0
  Within c n k m = (j : ℕ) × (j ≤ k) × Exchanged c n j m

  read_response-Within :
      (c : OpenAiPrincipalClient) (n : Server) (k : ℕ) (resp : http.Response) (m : Server)
      → Within c n k m
      → Within c n k (read_response json http resp m).1
  unfolding read_response
  read_response-Within c n k resp m (j, b, x) = elim (Bool-cases (http.is_success resp)) [
    | inl e ↦ rw e (
        continue-cases (λ (q : Result Text AssistantMessage × Server). Within c n k q.1)
          (http.read_json resp m).0 _ (http.read_json resp m).1 (λ a. (j, b, reads_json resp x))
          (λ a. (j, b, reads_json resp x)) (j, b, reads_json resp x))
    | inr e ↦ rw e (j, b, reads_text resp x)
  ]

  post_chat-Within :
      (c : OpenAiPrincipalClient) (n : Server) (k : ℕ) (messages : List ChatMessage) (m : Server)
      → IsAnswered messages
      → Within c n k m
      → Within c n (suc k) (post_chat json http c.base_url c.model c.api_key messages m).1
  unfolding post_chat
  post_chat-Within c n k messages m a (j, b, x) =
      continue-cases (λ (q : Result Text AssistantMessage × Server). Within c n (suc k) q.1)
        (http.build timeout_seconds) _ m
        (λ client.
          let sent : Within c n (suc k) _ = (suc j, omega arith, sends client messages a x) in
          continue-cases (λ (q : Result Text AssistantMessage × Server). Within c n (suc k) q.1)
            (http.send client (chat_url c.base_url) (headers c.api_key)
              (chat_request json c.model messages) m).0
            _ _ (λ resp. read_response-Within c n (suc k) resp _ sent) (λ e. sent) sent)
        (λ e. (j, omega arith, x)) (j, omega arith, x)

  -- `post_chat` with the settings of a client that continues `c₀`.
  ask-Within :
      (c₀ : OpenAiPrincipalClient) (n : Server) (k : ℕ) (s : Self json http)
      → Continues c₀ s.0
      → IsAnswered s.0.messages
      → Within c₀ n k s.1
      → Within c₀ n (suc k) (ask json http s).1.1
  unfolding ask
  ask-Within c₀ n k (c, net) h a w =
      subst (λ u. Within c₀ n (suc k) (post_chat json http u c.model c.api_key c.messages net).1)
        (sym h.same_base_url)
        (subst
          (λ u. Within c₀ n (suc k) (post_chat json http c₀.base_url u c.api_key c.messages net).1)
          (sym h.same_model)
          (subst
            (λ u. Within c₀ n (suc k) (post_chat json http c₀.base_url c₀.model u c.messages net).1)
            (sym h.same_api_key) (post_chat-Within c₀ n k c.messages net a w)))

  -- A client that continues `c₀`, after at most `k` requests, with the calls of the ids pending.
  pub record Reached (c₀ : OpenAiPrincipalClient) (n : Server) (k : ℕ) (ids : List Text)
      (s : Self json http) : Type 0 where
    pub continues : Continues c₀ s.0
    pub pending : Open s.0.messages ids
    pub within : Within c₀ n k s.1

  -- The ids that a result leaves pending: those of the calls that it holds.
  abbrev pub result_ids : Result Text (List (ToolCall × Text)) → List Text
  result_ids (ok cs) = called_ids cs
  result_ids (err e) = []
  result_ids panic = []

  abbrev pub Next :
      OpenAiPrincipalClient
      → Server
      → ℕ
      → Result Text (List (ToolCall × Text)) × Self json http
      → Type 0
  Next c₀ n k (r, s) = Reached c₀ n k (result_ids r) s

  Within-mono :
      (c : OpenAiPrincipalClient) (n : Server) (k l : ℕ) (m : Server)
      → k ≤ l
      → Within c n k m
      → Within c n l m
  Within-mono c n k l m h (j, b, x) = (j, omega arith, x)

  pub Reached-mono :
      (c₀ : OpenAiPrincipalClient) (n : Server) (k l : ℕ) (ids : List Text) (s : Self json http)
      → k ≤ l
      → Reached c₀ n k ids s
      → Reached c₀ n l ids s
  Reached-mono c₀ n k l ids s h r = record {
    continues = r.continues;
    pending = r.pending;
    within = Within-mono c₀ n k l s.1 h r.within;
  }

  after_turn-Next :
      (c₀ : OpenAiPrincipalClient) (n : Server) (k l : ℕ)
      (again : Self json http → Result Text (List (ToolCall × Text)) × Self json http)
      (o : TurnOutcome) (s : Self json http)
      → k ≤ l
      → (Reached c₀ n k [] s → Next c₀ n l (again s))
      → Reached c₀ n k (pending_ids o) s
      → Next c₀ n l (after_turn json http again o s)
  unfolding after_turn
  after_turn-Next c₀ n k l again (calls cs) s b f h = Reached-mono c₀ n k l (called_ids cs) s b h
  after_turn-Next c₀ n k l again done s b f h = Reached-mono c₀ n k l [] s b h
  after_turn-Next c₀ n k l again retry_after_unparseable s b f h = f h

  classified-Reached :
      (c₀ : OpenAiPrincipalClient) (n : Server) (k : ℕ) (a : AssistantMessage) (s : Self json http)
      → Reached c₀ n k [] s
      → Reached c₀ n k
          (pending_ids (classify_assistant json a s.0).0)
          ((classify_assistant json a s.0).1, s.1)
  classified-Reached c₀ n k a s h = record {
    continues = classify_assistant-Continues json a c₀ s.0 h.continues;
    pending = classify_assistant-Open json a s.0 h.pending;
    within = h.within;
  }

  ask-Reached :
      (c₀ : OpenAiPrincipalClient) (n : Server) (k : ℕ) (s : Self json http)
      → Reached c₀ n k [] s
      → Reached c₀ n (suc k) [] (ask json http s).1
  unfolding ask
  ask-Reached c₀ n k s h = record {
    continues = h.continues;
    pending = h.pending;
    within = ask-Within c₀ n k s h.continues (Open-IsAnswered h.pending) h.within;
  }

  pub retry-Next :
      (c₀ : OpenAiPrincipalClient) (n : Server) (k l tries : ℕ) (s : Self json http)
      → k + tries ≤ l
      → Reached c₀ n k [] s
      → Next c₀ n l (retry json http tries s)
  unfolding retry classified
  retry-Next c₀ n k l zero s b h = Reached-mono c₀ n k l [] s (omega arith) h
  retry-Next c₀ n k l (suc tries) s b h =
      let asked = ask-Reached c₀ n k s h in
      let failed = Reached-mono c₀ n (suc k) l [] _ (omega arith) asked in
      continue-cases (Next c₀ n l) (ask json http s).0 _ (ask json http s).1
        (λ a.
          after_turn-Next c₀ n (suc k) l (retry json http tries)
            (classify_assistant json a (ask json http s).1.0).0 _ (omega arith)
            (retry-Next c₀ n (suc k) l tries _ (omega arith))
            (classified-Reached c₀ n (suc k) a (ask json http s).1 asked))
        (λ e. failed) failed
