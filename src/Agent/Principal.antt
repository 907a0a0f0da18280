-- ===== src/Agent/Principal.antt =====
-- `Principal`, `ScriptedPrincipal` and the agentic loop of agent/src/lib.rs.
use attenuate_agent.Prelude.{
  ℕ, zero, suc, ◌+◌, List, [], ◌∷◌, ◌++◌, Text, text, Result, ok, err, panic, length,
}
use attenuate_agent.Prelude.Runs.{Run, pure, ◌>>=◌, ◌>>◌}
use attenuate_agent.Prelude.Decimal.{decimal}
use attenuate_agent.External.{System}
use attenuate_agent.Tools.{ToolCall, Crates}
use attenuate_agent.Agent.Feedback.{StepOutcome, decision_feedback}
use attenuate_agent.Agent.Orchestrator.{State, step}

-- The trait: a state of its own, the next batch of calls with their ids, and the way back.
pub record Principal : Type 1 where
  pub Self : Type 0
  pub next_tool_calls : Run Self Text (List (ToolCall × Text))
  pub add_tool_result : Text → Text → Self → Self

pub record ScriptedPrincipal : Type 0 where
  pub pending : List ToolCall
  pub next_id : ℕ

unfoldable pub scripted_new : List ToolCall → ScriptedPrincipal
scripted_new calls = record { pending = calls; next_id = 0 }

unfoldable pub turn_budget : ScriptedPrincipal → ℕ
turn_budget p = length p.pending + 1

-- `pop_front`, and the batch of one.
unfoldable pub scripted_batch :
    List ToolCall → ℕ → Result Text (List (ToolCall × Text)) × ScriptedPrincipal
scripted_batch [] next_id = (ok [], record { pending = []; next_id = next_id })
scripted_batch (call ∷ rest) next_id = (
  ok ((call, text "scripted-" ++ decimal next_id) ∷ []),
  record { pending = rest; next_id = next_id + 1 },
)

abbrev pub scripted : Principal
scripted = record {
  Self = ScriptedPrincipal;
  next_tool_calls = λ p. scripted_batch p.pending p.next_id;
  add_tool_result = λ id content p. p;
}

module _ (sys : System) (crates : Crates) (pr : Principal) where
  -- The orchestrator and its machine, the principal, the outcomes so far.
  pub record Session : Type 0 where
    pub state : State sys crates
    pub principal : pr.Self
    pub outcomes : List StepOutcome

  -- What follows `self.step(call)`: the feedback, and the outcome at the end of the list.
  unfoldable pub finish_call :
      Text → Result Text StepOutcome × State sys crates → Run Session Text (Unit {0})
  finish_call call_id (ok outcome, state) s = (
    ok tt,
    record {
      state = state;
      principal = pr.add_tool_result call_id (decision_feedback outcome.decision) s.principal;
      outcomes = s.outcomes ++ (outcome ∷ []);
    },
  )
  finish_call call_id (err e, state) s = (err e, record s { state = state })
  finish_call call_id (panic, state) s = (panic, record s { state = state })

  -- `for (call, call_id) in calls`
  unfoldable pub run_calls : List (ToolCall × Text) → Run Session Text (Unit {0})
  run_calls [] = pure tt
  run_calls ((call, call_id) ∷ calls) = do
    λ s. finish_call call_id (step sys crates call s.state) s
    run_calls calls

  -- `principal.next_tool_calls()?`
  unfoldable pub next_calls : Run Session Text (List (ToolCall × Text))
  next_calls s =
      let (r, principal) = pr.next_tool_calls s.principal in (r, record s { principal = principal })

  -- One turn: an empty batch ends the loop, `rest` is the turns that are left.
  unfoldable pub turn :
      Run Session Text (Unit {0}) → List (ToolCall × Text) → Run Session Text (Unit {0})
  turn rest [] = pure tt
  turn rest (call ∷ calls) = do run_calls (call ∷ calls); rest

  -- `for _turn in 0..max_turns`
  unfoldable pub run_principal : ℕ → Run Session Text (Unit {0})
  run_principal zero = pure tt
  run_principal (suc turns) = do calls ← next_calls; turn (run_principal turns) calls

module _ (sys : System) (crates : Crates) where
  -- `expect` panics where the loop fails.
  unfoldable pub expect_outcomes :
      Result Text (Unit {0}) × Session sys crates scripted
      → Result Text (List StepOutcome) × State sys crates
  expect_outcomes (ok u, s) = (ok s.outcomes, s.state)
  expect_outcomes (err e, s) = (panic, s.state)
  expect_outcomes (panic, s) = (panic, s.state)

  unfoldable pub run : List ToolCall → Run (State sys crates) Text (List StepOutcome)
  unfolding expect_outcomes scripted_new turn_budget
  run calls s =
      let p = scripted_new calls in
      expect_outcomes (
        run_principal sys crates scripted (turn_budget p)
          (record { state = s; principal = p; outcomes = [] }))
