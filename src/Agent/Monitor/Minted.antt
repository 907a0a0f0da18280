-- ===== src/Agent/Monitor/Minted.antt =====
-- The refinement for the root that an orchestrator begins with (agent/src/lib.rs).
use attenuate_agent.Prelude.{◌≤◌, ◌<◌, some, Text, ok, ◌≡◌}
use attenuate_agent.Prelude.Int.{pos}
use attenuate_agent.External.{DateTime, FileSystem, System}
use attenuate_agent.Manifest.{TaskManifest}
use attenuate_agent.Capability.Data.{RequestBinding}
use attenuate_agent.Capability.Lifetime.{checked_expires_at}
use attenuate_agent.Capability.Codec.{append_block}
use attenuate_agent.Capability.Codec.Facts.{IsLawful, HasHash}
use attenuate_agent.Capability.Codec.Roundtrip.{IsPrinted}
use attenuate_agent.Capability.Issuance.{IsResolved}
use attenuate_agent.Capability.Minting.{IsBuilt, mint-IsOlder}
use attenuate_agent.Capability.Token.{mint}
use attenuate_agent.Tools.{ToolCall, Crates, to_request, request_binding_for}
use attenuate_agent.Agent.Mode.{enforced}
use attenuate_agent.Agent.Orchestrator.{Orchestrator, child_ttl_seconds, step}
use attenuate_agent.Agent.Monitor.Refinement.{
  issue_time, nonce_of, issuing, dispatching, Refines, step-Monitored,
}

module _ (sys : System) (crates : Crates) (L : IsLawful crates.biscuit)
    (B : IsBuilt crates.biscuit L) (printed : IsPrinted crates.chrono crates.uuid) where
  -- With a root that was minted from a manifest, at whatever time and state of the files, a step of
  -- an enforcing orchestrator is a step of the reference monitor with the permissions of that root:
  -- the call is executed if those allow it, and its outcome answered, and is refused with the
  -- decision's reason if they do not. Conditions: the root's paths resolve to themselves, its token
  -- takes another block, the child does not outlive the root and is dispatched before it expires, the
  -- request has a JSON text, and hashes are 32 bytes. Relied on are the building, the parsing and the
  -- queries of biscuit-auth, within its limits, and that instants and ids are parsed to what they were
  -- printed of.
  pub step-mint-Monitored :
      (fs : FileSystem) (keypair : crates.biscuit.KeyPair) (manifest : TaskManifest)
      (minted_at : DateTime) (call : ToolCall) (o : Orchestrator) (w : sys.World)
      (b : RequestBinding) (token : Text) (t : DateTime)
      → o.mode ≡ enforced
      → mint fs crates.chrono crates.uuid crates.biscuit keypair manifest minted_at ≡ ok o.root
      → IsResolved (sys.files (issuing sys crates w)) o.root.permissions.readable_roots
      → IsResolved (sys.files (issuing sys crates w)) o.root.permissions.writable_roots
      → request_binding_for crates.hash crates.to_json (to_request call) (nonce_of sys crates w)
        ≡ ok b
      → HasHash (some b)
      → checked_expires_at crates.chrono (issue_time sys crates w) child_ttl_seconds ≡ ok t
      → t ≤ o.root.expires_at
      → (sys.now (dispatching sys crates w)).0 < t
      → append_block crates.biscuit crates.chrono crates.uuid o.root.token
          (crates.biscuit.public keypair)
          (pos 1)
          o.root.permissions
          t
          (some b)
        ≡ ok token
      → Refines sys crates o.root call w (step sys crates call (o, w))
  step-mint-Monitored fs keypair manifest minted_at call o w b token t on minted readable writable
        bound hashed lifetime bounded lives appended =
      let (parsed, old, verified, older) =
        mint-IsOlder crates.chrono crates.uuid crates.biscuit L B printed fs keypair manifest
          minted_at minted in
      step-Monitored sys crates call o w b bound L printed manifest.task_id
        (crates.biscuit.public keypair) old token t on readable writable lifetime bounded lives
        parsed verified older hashed appended
