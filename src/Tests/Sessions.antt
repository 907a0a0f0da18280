-- ===== src/Tests/Sessions.antt =====
-- The theorems on the tools, the audit log and the agent at concrete inputs.
use attenuate_agent.Prelude.{
  map, ◌<◌, ◌≤◌, ◌*◌, ◌++◌, Option, none, some, List, [], ◌∷◌, Text, text, length, Result, ok, err,
  panic, ◌≡◌, refl, ok-injective, ◌∙◌, sym, ap, ◌⊎◌, arith, ℕ, ◌/◌, ◌%◌,
}
use attenuate_agent.Capability.Token.{mint}
use attenuate_agent.Audit.{AuditEvent, chain_entry, verify_chain}
use attenuate_agent.Pdp
use attenuate_agent.Pdp.{ToolRequest}
use attenuate_agent.Tools.{
  ToolCall, fs_read, fs_write, request_binding_for, argument_bytes, request_tool_name,
}
use attenuate_agent.Tools.Authorize.{Mediated, dispatch-Mediated}
use attenuate_agent.Tools.Binding.{IsApart, request_binding_for-injective}
use attenuate_agent.Agent.Mode.{enforced}
use attenuate_agent.Agent.Orchestrator.{Orchestrator, OrchestratorError, new, initial}
use attenuate_agent.Agent.Accounts.{Trails, run_principal-Accounted}
use attenuate_agent.Agent.Trail.{events}
use attenuate_agent.Agent.Replay.{Panics, run-Answers}
use attenuate_agent.Agent.Feedback.{StepOutcome}
use attenuate_agent.Agent.Principal.{run, Session, scripted, scripted_new, run_principal}
use attenuate_agent.Agent.Confinement.{Confined, SameSetup, run_principal-Confined}
use attenuate_agent.Agent.AuditLog.{IsLogged, run_principal-IsLogged, new-IsLogged}
use attenuate_agent.Tests.Crates.{clock, nanos, plain_uuid, tokens}
use attenuate_agent.Tests.Machine.{
  World, machine, crates, world, disk, manifest, root, minted, grandchild, binding, id_of,
  read_request, value_of,
}

dispatch-Mediated_example :
    Mediated machine crates grandchild (fs_read (text "/work/src/a")) (some (id_of 9)) world
dispatch-Mediated_example =
    dispatch-Mediated machine crates grandchild (fs_read (text "/work/src/a")) (some (id_of 9))
      world

json-injective :
    (a b : ToolRequest) (s : Text) → crates.to_json a ≡ ok s → crates.to_json b ≡ ok s → a ≡ b
json-injective (Pdp.read p) (Pdp.read q) s h k = cc
json-injective (Pdp.read p) (Pdp.write q) s h k = absurd (ground arith)
json-injective (Pdp.read p) (Pdp.exec q) s h k = absurd (ground arith)
json-injective (Pdp.read p) Pdp.network s h k = absurd (ground arith)
json-injective (Pdp.write p) (Pdp.read q) s h k = absurd (ground arith)
json-injective (Pdp.write p) (Pdp.write q) s h k = cc
json-injective (Pdp.write p) (Pdp.exec q) s h k = absurd (ground arith)
json-injective (Pdp.write p) Pdp.network s h k = absurd (ground arith)
json-injective (Pdp.exec p) (Pdp.read q) s h k = absurd (ground arith)
json-injective (Pdp.exec p) (Pdp.write q) s h k = absurd (ground arith)
json-injective (Pdp.exec p) (Pdp.exec q) s h k = cc
json-injective (Pdp.exec p) Pdp.network s h k = absurd (ground arith)
json-injective Pdp.network (Pdp.read q) s h k = absurd (ground arith)
json-injective Pdp.network (Pdp.write q) s h k = absurd (ground arith)
json-injective Pdp.network (Pdp.exec q) s h k = absurd (ground arith)
json-injective Pdp.network Pdp.network s h k = refl

bound_read : request_binding_for crates.hash crates.to_json read_request (id_of 9) ≡ ok binding
unfolding request_binding_for text
bound_read = refl

same_read : IsApart crates read_request (id_of 9) read_request (id_of 9)
same_read s t h k e =
    ap (λ u. argument_bytes (request_tool_name read_request) u (id_of 9)) (ok-injective (sym h ∙ k))

request_binding_for-injective_example :
    (read_request ≡ Pdp.read (text "/work/src/a")) × (id_of 9 ≡ id_of 9)
request_binding_for-injective_example =
    request_binding_for-injective crates json-injective read_request (Pdp.read (text "/work/src/a"))
      (id_of 9) (id_of 9) same_read bound_read bound_read refl

-- The machine two seconds later, within the life of the second child.
abbrev later : World
later = record world { time = 2 * nanos }

-- An orchestrator in the mode that enforces, on a script of a write that its root does not allow, a
-- read that it allows and one that it does not.
abbrev pub orchestrator : Orchestrator
unfolding initial
orchestrator = initial root manifest enforced

abbrev pub script : List ToolCall
script =
    fs_write (text "/work/a") (text "x")
    ∷ fs_read (text "/work/a")
    ∷ fs_read (text "/etc/passwd")
    ∷ []

abbrev session : Session machine crates scripted
unfolding scripted_new
session = record { state = (orchestrator, world); principal = scripted_new script; outcomes = [] }

run_principal-Confined_example :
    Confined machine crates root.permissions world
      (run_principal machine crates scripted 4 session).1.state.1
    × SameSetup machine crates orchestrator
        (run_principal machine crates scripted 4 session).1.state.0
unfolding initial session
run_principal-Confined_example = run_principal-Confined machine crates scripted 4 session refl

run_principal-IsLogged_example :
    IsLogged machine crates [] (run_principal machine crates scripted 4 session).1.state.0
unfolding initial verify_chain session
run_principal-IsLogged_example = run_principal-IsLogged machine crates scripted 4 session refl tt

-- What `new` makes of the manifest on this machine.
unfoldable started : Result OrchestratorError Orchestrator
unfolding new minted chain_entry
started = (new machine crates 5 manifest enforced world).0

abbrev fresh : Orchestrator
fresh = value_of orchestrator started

new-IsLogged_example :
    IsLogged machine crates [] fresh
    × (fresh.mode ≡ enforced)
    × (fresh.task_id ≡ id_of 7)
    × (mint disk clock plain_uuid tokens 5 manifest nanos ≡ ok fresh.root)
unfolding new started
new-IsLogged_example = new-IsLogged machine crates 5 manifest enforced world {o = fresh} refl

run-Answers_example :
    ((outcomes : List StepOutcome) × ((run machine crates script (orchestrator, world)).0
        ≡ ok outcomes)
      × (map (λ (o : StepOutcome). o.call) outcomes ≡ script))
    ⊎ Panics machine crates script
run-Answers_example = run-Answers machine crates script (orchestrator, world)

run_principal-Accounted_example :
    ((run_principal machine crates scripted 4 session).0 ≡ panic)
    ⊎ ((added : List AuditEvent) × Trails session.state.0.task_id session.state.0.mode
          (run_principal machine crates scripted 4 session).1.outcomes
          added
        × (events (run_principal machine crates scripted 4 session).1.state.0
            ≡ events session.state.0 ++ added))
unfolding session
run_principal-Accounted_example = run_principal-Accounted machine crates scripted 4 session refl
