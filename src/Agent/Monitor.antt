-- ===== src/Agent/Monitor.antt =====
-- The reference monitor that an enforcing orchestrator implements (agent/src/lib.rs): what a step of it
-- comes to, without tokens, children and logs.
pub mod Dispatch
pub mod Refinement
pub mod Minted
use attenuate_agent.Prelude.{Text, Result, ok, err, panic, ◌≡◌}
use attenuate_agent.External.{System}
use attenuate_agent.Capability.Data.{PermissionSet}
use attenuate_agent.Pdp.{decide, allow, deny}
use attenuate_agent.Tools.{ToolCall, ToolOutput, io, to_request, execute}
use attenuate_agent.Agent.Feedback.{StepDecision, StepOutcome, allowed, denied, errored}

module _ (sys : System) where
  -- The machine after readings of the clock and draws of random ids.
  pub data Idle (w : sys.World) : sys.World → Type 0 where
    here : Idle w w
    clock : {v : sys.World} → Idle w v → Idle w (sys.now v).1
    random : {v : sys.World} → Idle w v → Idle w (sys.new_v4 v).1

  abbrev pub answer : ToolCall → StepDecision → Result Text StepOutcome
  answer call decision = ok (record { call = call; decision = decision })

  -- One step of the monitor with the permissions `p`: it decides on the call, executes it exactly when
  -- it is allowed, and answers with the output, the error or the reason of the denial. Before and
  -- after, it is idle; a panic of the call ends the program.
  pub data Monitored (p : PermissionSet) (call : ToolCall) (w : sys.World)
      : Result Text StepOutcome → sys.World → Type 0 where
    refuses :
        {v v' : sys.World} (reason : Text)
        → Idle w v
        → decide (sys.files v) p (to_request call) ≡ deny reason
        → Idle v v'
        → Monitored p call w (answer call (denied reason)) v'
    performs :
        {v v' : sys.World} (output : ToolOutput)
        → Idle w v
        → decide (sys.files v) p (to_request call) ≡ allow
        → (execute sys call v).0 ≡ ok output
        → Idle (execute sys call v).1 v'
        → Monitored p call w (answer call (allowed output)) v'
    fails :
        {v v' : sys.World} (e : Text)
        → Idle w v
        → decide (sys.files v) p (to_request call) ≡ allow
        → (execute sys call v).0 ≡ err (io e)
        → Idle (execute sys call v).1 v'
        → Monitored p call w (answer call (errored e)) v'
    panics :
        {v : sys.World}
        → Idle w v
        → decide (sys.files v) p (to_request call) ≡ allow
        → (execute sys call v).0 ≡ panic
        → Monitored p call w panic (execute sys call v).1
