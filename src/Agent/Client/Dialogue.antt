-- ===== src/Agent/Client/Dialogue.antt =====
-- The agentic loop of agent/src/lib.rs with a live model as its principal: the conversation and the
-- requests.
use attenuate_agent.Prelude.{
  ℕ, zero, suc, ◌+◌, ◌*◌, ◌≤◌, List, [], ◌∷◌, Text, text, text_eq, Result, ok, err, panic, ◌≡◌,
  refl, subst, ◌⊎◌, inl, inr, arith,
}
use attenuate_agent.Prelude.Runs.{continue}
use attenuate_agent.External.{System}
use attenuate_agent.External.Json.{Json}
use attenuate_agent.External.Http.{Http}
use attenuate_agent.Tools.{ToolCall, Crates}
use attenuate_agent.Agent.Feedback.{StepOutcome}
use attenuate_agent.Agent.Orchestrator.{State, step}
use attenuate_agent.Agent.Principal.{
  Session, finish_call, run_calls, next_calls, turn, run_principal,
}
use attenuate_agent.Agent.Replay.{Answers, step_in-Answers}
use attenuate_agent.Agent.Chat.{ChatResponse, ChatRequest, build_demo_initial_messages}
use attenuate_agent.Agent.Client.{
  OpenAiPrincipalClient, max_unparseable_retries, Self, next_tool_calls, retry, openai,
}
use attenuate_agent.Agent.Client.Conversation.{
  outstanding, receive, Open, IsAnswered, Open-IsAnswered, IsAnswered-Open,
}
use attenuate_agent.Agent.Client.Ingest.{
  Continues, Continues-refl, called_ids, add_tool_result-Continues, add_tool_result-Open,
}
use attenuate_agent.Agent.Client.Exchange.{here, Reached, Reached-mono, Next, retry-Next}

-- The conversation of the demo begins so.
pub build_demo_initial_messages-IsAnswered :
    (task_description : Text) → IsAnswered (build_demo_initial_messages task_description)
unfolding build_demo_initial_messages outstanding receive text text_eq
build_demo_initial_messages-IsAnswered task_description = refl

module _ (sys : System) (crates : Crates) (json : Json)
    (http : Http (ChatRequest json) ChatResponse) where
  abbrev Live : Type 0
  Live = Session sys crates (openai json http)

  -- No call is pending, or the program panicked; at most `k` requests were sent.
  abbrev Settled : OpenAiPrincipalClient → http.Server → ℕ → Result Text (Unit {0}) × Live → Type 0
  Settled c n k (r, t) =
      (ids : List Text) × Reached json http c n k ids t.principal × ((r ≡ panic) ⊎ (ids ≡ []))

  finish_call-Settled :
      (c : OpenAiPrincipalClient) (n : http.Server) (k : ℕ) (call : ToolCall) (id : Text)
      (ids : List Text) (r : Result Text StepOutcome × State sys crates) (s : Live)
      → Answers call r.0
      → Reached json http c n k (id ∷ ids) s.principal
      → (rest : Live → Result Text (Unit {0}) × Live)
      → ((t : Live) → Reached json http c n k ids t.principal → Settled c n k (rest t))
      → Settled c n k (
          let (q, t) = finish_call sys crates (openai json http) id r s in
          continue q (λ done. rest) t)
  unfolding finish_call
  finish_call-Settled c n k call id ids (ok outcome, state) s a h rest f = f _ (record {
    continues = add_tool_result-Continues c s.principal.0 id _ h.continues;
    pending = add_tool_result-Open s.principal.0 id _ ids h.pending;
    within = h.within;
  })
  finish_call-Settled c n k call id ids (err e, state) s (inl (o, q, m)) h rest f =
      absurd (ground arith)
  finish_call-Settled c n k call id ids (err e, state) s (inr q) h rest f = absurd (ground arith)
  finish_call-Settled c n k call id ids (panic, state) s a h rest f = (id ∷ ids, h, inl refl)

  run_calls-Settled :
      (c : OpenAiPrincipalClient) (n : http.Server) (k : ℕ) (calls : List (ToolCall × Text))
      (s : Live)
      → Reached json http c n k (called_ids calls) s.principal
      → Settled c n k (run_calls sys crates (openai json http) calls s)
  unfolding run_calls step
  run_calls-Settled c n k [] s h = ([], h, inr refl)
  run_calls-Settled c n k ((call, id) ∷ calls) s h =
      finish_call-Settled c n k call id (called_ids calls) _ s
        (step_in-Answers sys crates s.state.0.mode call s.state) h
        (run_calls sys crates (openai json http) calls) (λ t r. run_calls-Settled c n k calls t r)

  turn-Settled :
      (c : OpenAiPrincipalClient) (n : http.Server) (k l : ℕ) (calls : List (ToolCall × Text))
      (rest : Live → Result Text (Unit {0}) × Live) (s : Live)
      → k ≤ l
      → ((t : Live) → Reached json http c n k [] t.principal → Settled c n l (rest t))
      → Reached json http c n k (called_ids calls) s.principal
      → Settled c n l (turn sys crates (openai json http) rest calls s)
  unfolding turn
  turn-Settled c n k l [] rest s b f h =
      ([], Reached-mono json http c n k l [] s.principal b h, inr refl)
  turn-Settled c n k l (call ∷ calls) rest s b f h =
      after (run_calls sys crates (openai json http) (call ∷ calls) s)
        (run_calls-Settled c n k (call ∷ calls) s h)
    where
      after :
          (q : Result Text (Unit {0}) × Live)
          → Settled c n k q
          → Settled c n l (continue q.0 (λ done. rest) q.1)
      after (ok done, t) (ids, r, inl e) = absurd (ground arith)
      after (ok done, t) (ids, r, inr e) =
          f t (subst (λ is. Reached json http c n k is t.principal) e r)
      after (err x, t) (ids, r, e) = (ids, Reached-mono json http c n k l ids t.principal b r, e)
      after (panic, t) (ids, r, e) = (ids, Reached-mono json http c n k l ids t.principal b r, e)

  -- One turn, from what the model answered.
  answered-Settled :
      (c : OpenAiPrincipalClient) (n : http.Server) (k l : ℕ)
      (rest : Live → Result Text (Unit {0}) × Live)
      (q : Result Text (List (ToolCall × Text)) × Self json http) (s : Live)
      → k ≤ l
      → ((t : Live) → Reached json http c n k [] t.principal → Settled c n l (rest t))
      → Next json http c n k q
      → Settled c n l
          (continue q.0 (turn sys crates (openai json http) rest) (record s { principal = q.1 }))
  answered-Settled c n k l rest (ok calls, p) s b f h = turn-Settled c n k l calls rest _ b f h
  answered-Settled c n k l rest (err e, p) s b f h =
      ([], Reached-mono json http c n k l [] p b h, inr refl)
  answered-Settled c n k l rest (panic, p) s b f h =
      ([], Reached-mono json http c n k l [] p b h, inr refl)

  run_principal-Settled :
      (c : OpenAiPrincipalClient) (n : http.Server) (k l turns : ℕ) (s : Live)
      → k + max_unparseable_retries * turns ≤ l
      → Reached json http c n k [] s.principal
      → Settled c n l (run_principal sys crates (openai json http) turns s)
  unfolding run_principal next_calls next_tool_calls
  run_principal-Settled c n k l zero s b h =
      ([], Reached-mono json http c n k l [] s.principal (omega arith) h, inr refl)
  run_principal-Settled c n k l (suc turns) s b h =
      answered-Settled c n (k + 3) l (run_principal sys crates (openai json http) turns)
        (retry json http max_unparseable_retries s.principal) s (omega arith)
        (λ t r. run_principal-Settled c n (k + 3) l turns t (omega arith) r)
        (retry-Next json http c n k (k + 3) max_unparseable_retries s.principal (omega arith) h)

  from_start :
      (turns : ℕ) (s : Live)
      → IsAnswered s.principal.0.messages
      → Settled s.principal.0 s.principal.1
          (max_unparseable_retries * turns)
          (run_principal sys crates (openai json http) turns s)
  from_start turns s a =
      run_principal-Settled s.principal.0 s.principal.1 0 (max_unparseable_retries * turns) turns s
        (omega arith)
        (record {
          continues = Continues-refl s.principal.0;
          pending = IsAnswered-Open s.principal.0.messages a;
          within = (0, omega arith, here);
        })

  -- From a conversation in which the messages come in order and every tool call is answered, a run
  -- with a live model, of any answers, keeps the client's settings, only adds to the conversation,
  -- and unless it panics ends with the messages in order and every call answered, also when a request
  -- fails: calls that cannot be parsed are answered too.
  pub run_principal-IsAnswered :
      (turns : ℕ) (s : Live)
      → IsAnswered s.principal.0.messages
      → Continues s.principal.0 (run_principal sys crates (openai json http) turns s).1.principal.0
        × (((run_principal sys crates (openai json http) turns s).0 ≡ panic)
            ⊎ IsAnswered
                (run_principal sys crates (openai json http) turns s).1.principal.0.messages)
  run_principal-IsAnswered turns s a =
      let (ids, r, e) = from_start turns s a in
      (
        r.continues,
        elim e [
          | inl p ↦ inl p
          | inr q ↦ inr (
              Open-IsAnswered (
                subst
                  (λ is.
                    Open
                      (run_principal sys crates (openai json http) turns s).1.principal.0.messages
                      is)
                  q r.pending))
        ],
      )
