-- ===== src/Agent/Monitor/Refinement.antt =====
-- An enforced step refines the reference monitor (agent/src/lib.rs).
use attenuate_agent.Prelude.{
  ◌≤◌, ◌<◌, some, Text, Result, ok, err, ◌≡◌, refl, sym, ◌∙◌, subst, ◌⊎◌, inl, inr,
}
use attenuate_agent.Prelude.Int.{pos}
use attenuate_agent.External.{Uuid, DateTime, System}
use attenuate_agent.Capability.Data.{RequestBinding, RootCapability, ChildCapability}
use attenuate_agent.Capability.Lifetime.{checked_expires_at}
use attenuate_agent.Capability.Codec.{append_block}
use attenuate_agent.Capability.Codec.Facts.{IsLawful, HasHash}
use attenuate_agent.Capability.Codec.Roundtrip.{IsPrinted, IsOlder}
use attenuate_agent.Capability.Issuance.{IsResolved, issued, attenuate_root-issued}
use attenuate_agent.Capability.Token.{parse_public_key}
use attenuate_agent.Pdp.{Decision, allow, deny, decide}
use attenuate_agent.Pdp.Decide.{decide-permissions_eq}
use attenuate_agent.Pep.Completeness.{verify-issued}
use attenuate_agent.Pep.Verify.{VerifiedCapability, verify}
use attenuate_agent.Audit.{capability_attenuated}
use attenuate_agent.Tools
use attenuate_agent.Tools.{
  ToolCall, ToolOutput, ToolError, Crates, to_request, request_binding_for, execute, dispatch,
}
use attenuate_agent.Agent.Mode.{enforced}
use attenuate_agent.Agent.Feedback.{StepOutcome}
use attenuate_agent.Agent.Orchestrator.{
  Orchestrator, State, child_ttl_seconds, child_request, record_lossy, finish_enforced,
  dispatch_child, attenuate_and_dispatch, step_enforced, step_in, step,
}
use attenuate_agent.Agent.Monitor.{
  Idle, here, clock, random, Monitored, refuses, performs, fails, panics,
}
use attenuate_agent.Agent.Monitor.Dispatch.{execute-IsIo, dispatch-allow, dispatch-deny}

decision_cases : (d : Decision) → (d ≡ allow) ⊎ ((reason : Text) × (d ≡ deny reason))
decision_cases allow = inl refl
decision_cases (deny reason) = inr (reason, refl)

module _ (sys : System) (crates : Crates) where
  -- The steps of an enforced step before the decision: the time that the child is issued at, its
  -- nonce, the machine at that moment and at the dispatch.
  abbrev pub issue_time : sys.World → DateTime
  issue_time w = (sys.now w).0

  abbrev pub nonce_of : sys.World → Uuid
  nonce_of w = (sys.new_v4 (sys.now w).1).0

  abbrev pub issuing : sys.World → sys.World
  issuing w = (sys.new_v4 (sys.now w).1).1

  abbrev pub dispatching : sys.World → sys.World
  dispatching w = (sys.new_v4 (sys.now (issuing w)).1).1

  abbrev pub Refines :
      RootCapability → ToolCall → sys.World → Result Text StepOutcome × State sys crates → Type 0
  Refines root call w (r, s) = Monitored sys root.permissions call w r s.1

  -- A denial is passed on with its reason.
  finish-deny :
      (root : RootCapability) (call : ToolCall) (w v : sys.World) (o : Orchestrator) (reason : Text)
      → Idle sys w v
      → decide (sys.files v) root.permissions (to_request call) ≡ deny reason
      → Refines root call w (finish_enforced sys crates call (err (Tools.denied reason)) (o, v))
  unfolding finish_enforced
  finish-deny root call w v o reason i d = refuses reason i d (random (clock here))

  -- So is what came of an execution.
  finish-execute :
      (root : RootCapability) (call : ToolCall) (w v : sys.World) (o : Orchestrator)
      → Idle sys w v
      → decide (sys.files v) root.permissions (to_request call) ≡ allow
      → Refines root call w
          (finish_enforced sys crates call (execute sys call v).0 (o, (execute sys call v).1))
  unfolding finish_enforced
  finish-execute root call w v o i d = elim (execute-IsIo sys call v) [
    | inl (output, e) ↦ rw e (performs output i d e (random (clock here)))
    | inr (inl (x, e)) ↦ rw e (fails x i d e (random (clock here)))
    | inr (inr e) ↦ rw e (panics i d e)
  ]

  module _ (call : ToolCall) (o : Orchestrator) (w : sys.World) (b : RequestBinding)
      (bound : request_binding_for crates.hash crates.to_json (to_request call) (nonce_of w)
        ≡ ok b) where
    -- A child that verifies, with rights that compare equal to the root's, is dispatched as the
    -- monitor acts.
    dispatch_child-Refines :
        (child : ChildCapability) (v : VerifiedCapability)
        → verify crates.chrono crates.uuid crates.biscuit child (sys.now (dispatching w)).0 (some b)
          ≡ ok v
        → ((at : sys.World)
            → decide (sys.files at) v.state.permissions (to_request call)
              ≡ decide (sys.files at) o.root.permissions (to_request call))
        → Refines o.root call w
            (dispatch_child sys crates call (nonce_of w) (ok child) (o, issuing w))
    unfolding dispatch_child record_lossy
    dispatch_child-Refines child v verified same =
        let o' = (record_lossy sys crates (capability_attenuated o.task_id) (o, issuing w)).0 in
        let at = (sys.now (dispatching w)).1 in
        let i : Idle sys w at = clock (random (clock (random (clock here)))) in
        elim (decision_cases (decide (sys.files at) v.state.permissions (to_request call))) [
          | inl d ↦
              subst
                (λ (x : Result ToolError ToolOutput × sys.World).
                  Refines o.root call w (finish_enforced sys crates call x.0 (o', x.1)))
                (sym (
                  dispatch-allow sys crates child call (nonce_of w) b v (dispatching w) bound
                    verified d))
                (finish-execute o.root call w at o' i (sym (same at) ∙ d))
          | inr (reason, d) ↦
              subst
                (λ (x : Result ToolError ToolOutput × sys.World).
                  Refines o.root call w (finish_enforced sys crates call x.0 (o', x.1)))
                (sym (
                  dispatch-deny sys crates child call (nonce_of w) b v (dispatching w) bound
                    verified reason d))
                (finish-deny o.root call w at o' reason i (sym (same at) ∙ d))
        ]

    -- With a root whose token verifies, a step of an enforcing orchestrator is a step of the monitor.
    pub step-Monitored :
        (L : IsLawful crates.biscuit) (printed : IsPrinted crates.chrono crates.uuid)
        (task_id : Uuid) (key : crates.biscuit.PublicKey) (old : crates.biscuit.Biscuit)
        (token : Text) (t : DateTime)
        → o.mode ≡ enforced
        → IsResolved (sys.files (issuing w)) o.root.permissions.readable_roots
        → IsResolved (sys.files (issuing w)) o.root.permissions.writable_roots
        → checked_expires_at crates.chrono (issue_time w) child_ttl_seconds ≡ ok t
        → t ≤ o.root.expires_at
        → (sys.now (dispatching w)).0 < t
        → parse_public_key crates.biscuit o.root.root_public_key ≡ ok key
        → crates.biscuit.from o.root.token key ≡ ok old
        → IsOlder (pos 1) (crates.uuid.to_string task_id) (L.facts old)
        → HasHash (some b)
        → append_block crates.biscuit crates.chrono crates.uuid o.root.token key
            (pos 1)
            o.root.permissions
            t
            (some b)
          ≡ ok token
        → Refines o.root call w (step sys crates call (o, w))
    unfolding step step_in step_enforced attenuate_and_dispatch child_request
    step-Monitored L printed task_id key old token t on readable writable lifetime bounded lives
          parsed verified older hashed appended =
        let child = issued o.root b t token in
        let made =
          attenuate_root-issued (sys.files (issuing w)) crates.chrono crates.uuid crates.biscuit
            o.root readable writable child_ttl_seconds b (issue_time w) t lifetime key token bounded
            parsed appended in
        let (v, accepted, fresh) =
          verify-issued crates.chrono crates.uuid crates.biscuit L printed o.root b t task_id key
            old token (sys.now (dispatching w)).0 parsed verified older hashed appended lives in
        let same = λ (at : sys.World).
          decide-permissions_eq (sys.files at) v.state.permissions o.root.permissions
            (to_request call) fresh.rights in
        subst (λ m. Refines o.root call w (step_in sys crates m call (o, w))) (sym on)
          (rw (bound, made) (dispatch_child-Refines child v accepted same))
