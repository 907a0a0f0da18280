-- ===== src/Agent/Offline.antt =====
-- No tool of an enforcing orchestrator opens a connection: no permissions allow a network call
-- (agent/src/lib.rs, pdp/src/lib.rs, tools/src/lib.rs).
use attenuate_agent.Prelude.{ℕ, Text, ◌≡◌, ◌⊎◌, inl, inr}
use attenuate_agent.External.{FileSystem, System}
use attenuate_agent.Capability.Data.{PermissionSet}
use attenuate_agent.Pdp.{decide, allow}
use attenuate_agent.Pdp.Decide.{decide-allow_iff}
use attenuate_agent.Tools.{ToolCall, Crates, fs_read, fs_write, to_request, execute}
use attenuate_agent.Agent.Mode.{AuthzMode, enforced, bypassed}
use attenuate_agent.Agent.Principal.{Principal, Session, run_principal}
use attenuate_agent.Agent.Confinement.{Confined, here, clock, random, acts, run_principal-Confined}

-- The call is not of the network tool.
abbrev pub IsLocal : ToolCall → Type 0
IsLocal (fs_read path) = Unit
IsLocal (fs_write path contents) = Unit
IsLocal (ToolCall.exec binary args) = Unit
IsLocal (ToolCall.network host port payload) = ⊥

decide-IsLocal :
    (fs : FileSystem) (p : PermissionSet) (call : ToolCall)
    → decide fs p (to_request call) ≡ allow
    → IsLocal call
unfolding to_request
decide-IsLocal fs p (fs_read path) h = tt
decide-IsLocal fs p (fs_write path contents) h = tt
decide-IsLocal fs p (ToolCall.exec binary args) h = tt
decide-IsLocal fs p (ToolCall.network host port payload) h =
    (decide-allow_iff fs p attenuate_agent.Pdp.network).0 h

module _ (sys : System) where
  -- Ways from one state of the machine to another without a connection by a tool: the clock, random
  -- ids, readings of files, and executions of calls that are not of the network tool.
  pub data Offline (w : sys.World) : sys.World → Type 0 where
    stays : Offline w w
    ticks : {v : sys.World} → Offline w v → Offline w (sys.now v).1
    draws : {v : sys.World} → Offline w v → Offline w (sys.new_v4 v).1
    loads : {v : sys.World} (path : Text) → Offline w v → Offline w (sys.read_to_string path v).1
    executes :
        {v : sys.World} (call : ToolCall)
        → IsLocal call
        → Offline w v
        → Offline w (execute sys call v).1

  pub Confined-Offline :
      (crates : Crates) (p : PermissionSet) (w u v : sys.World)
      → Offline w u
      → Confined sys crates p u v
      → Offline w v
  Confined-Offline crates p w u v o here = o
  Confined-Offline crates p w u v o (clock c) = ticks (Confined-Offline crates p w u _ o c)
  Confined-Offline crates p w u v o (random c) = draws (Confined-Offline crates p w u _ o c)
  Confined-Offline crates p w u v o (acts {v = at} call c d) =
      executes call (decide-IsLocal (sys.files at) p call d) (Confined-Offline crates p w u _ o c)

  -- With enforcement, a run is offline.
  abbrev pub OfflineIn : AuthzMode → sys.World → sys.World → Type 0
  OfflineIn mode w v = (mode ≡ bypassed) ⊎ Offline w v

  pub mode-cases : (mode : AuthzMode) → (mode ≡ bypassed) ⊎ (mode ≡ enforced)
  mode-cases enforced = inr (λ i. enforced)
  mode-cases bypassed = inl (λ i. bypassed)

  pub run_principal-OfflineIn :
      (crates : Crates) (pr : Principal) (turns : ℕ) (s : Session sys crates pr)
      → OfflineIn s.state.0.mode s.state.1 (run_principal sys crates pr turns s).1.state.1
  run_principal-OfflineIn crates pr turns s = elim (mode-cases s.state.0.mode) [
    | inl off ↦ inl off
    | inr on ↦ inr (
        Confined-Offline crates s.state.0.root.permissions s.state.1 s.state.1 _ stays
          (run_principal-Confined sys crates pr turns s on).0)
  ]
