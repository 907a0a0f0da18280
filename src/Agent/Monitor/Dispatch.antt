-- ===== src/Agent/Monitor/Dispatch.antt =====
-- `dispatch` of tools/src/lib.rs with a capability that verifies, and the results of `execute`.
use attenuate_agent.Prelude.{
  some, Text, Result, ok, err, panic, Result-cases, ◌≡◌, refl, ◌⊎◌, inl, inr,
}
use attenuate_agent.External.{Uuid, System}
use attenuate_agent.Capability.Data.{RequestBinding, ChildCapability}
use attenuate_agent.Pdp.{allow, deny, decide}
use attenuate_agent.Pep.Verify.{VerifiedCapability, verify}
use attenuate_agent.Tools.{
  ToolCall, fs_read, fs_write, ToolOutput, ToolError, io, denied, Crates, to_request,
  request_binding_for, actual_binding, decision_result, authorize_only, execute, dispatch,
}
use attenuate_agent.Tools.Authorize.{clocked}

-- A result, an input or output error, or a panic.
abbrev pub IsIo : Result ToolError ToolOutput → Type 0
IsIo r = ((output : ToolOutput) × (r ≡ ok output)) ⊎ ((e : Text) × (r ≡ err (io e))) ⊎ (r ≡ panic)

module _ (sys : System) where
  pub execute-IsIo : (call : ToolCall) (w : sys.World) → IsIo (execute sys call w).0
  unfolding execute
  execute-IsIo (fs_read path) w = elim (Result-cases (sys.read_to_string path w).0) [
    | inl (a, e) ↦ rw e (inl (_, refl))
    | inr (inl (x, e)) ↦ rw e (inr (inl (x, refl)))
    | inr (inr e) ↦ rw e (inr (inr refl))
  ]
  execute-IsIo (fs_write path contents) w = elim (Result-cases (sys.write path contents w).0) [
    | inl (a, e) ↦ rw e (inl (_, refl))
    | inr (inl (x, e)) ↦ rw e (inr (inl (x, refl)))
    | inr (inr e) ↦ rw e (inr (inr refl))
  ]
  execute-IsIo (ToolCall.exec binary args) w = elim (Result-cases (sys.output binary args w).0) [
    | inl (a, e) ↦ rw e (inl (_, refl))
    | inr (inl (x, e)) ↦ rw e (inr (inl (x, refl)))
    | inr (inr e) ↦ rw e (inr (inr refl))
  ]
  execute-IsIo (ToolCall.network host port payload) w =
      elim (Result-cases (sys.connect host port w).0) [
        | inl (a, e) ↦
            rw e (elim (Result-cases (sys.write_all a payload (sys.connect host port w).1).0) [
              | inl (b, f) ↦ rw f (inl (_, refl))
              | inr (inl (x, f)) ↦ rw f (inr (inl (x, refl)))
              | inr (inr f) ↦ rw f (inr (inr refl))
            ])
        | inr (inl (x, e)) ↦ rw e (inr (inl (x, refl)))
        | inr (inr e) ↦ rw e (inr (inr refl))
      ]

  module _ (crates : Crates) (child : ChildCapability) (call : ToolCall) (nonce : Uuid)
      (b : RequestBinding) (v : VerifiedCapability) (w : sys.World)
      (bound : request_binding_for crates.hash crates.to_json (to_request call) nonce ≡ ok b)
      (verified : verify crates.chrono crates.uuid crates.biscuit child (sys.now w).0 (some b)
        ≡ ok v) where
    bound_actual :
        actual_binding crates.hash crates.to_json (to_request call) (some nonce) ≡ ok (some b)
    unfolding actual_binding
    bound_actual = rw bound refl

    -- A verified capability's permissions decide.
    pub dispatch-allow :
        decide (sys.files (clocked sys crates w)) v.state.permissions (to_request call) ≡ allow
        → dispatch sys crates child call (some nonce) w ≡ execute sys call (clocked sys crates w)
    unfolding dispatch authorize_only decision_result
    dispatch-allow d = rw (bound_actual, verified, d) refl

    pub dispatch-deny :
        (reason : Text)
        → decide (sys.files (clocked sys crates w)) v.state.permissions (to_request call)
          ≡ deny reason
        → dispatch sys crates child call (some nonce) w
          ≡ (err (denied reason), clocked sys crates w)
    unfolding dispatch authorize_only decision_result
    dispatch-deny reason d = rw (bound_actual, verified, d) refl
