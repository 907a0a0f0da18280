-- ===== src/Tools/Authorize.antt =====
-- What authorization guarantees of the calls that are executed (tools/src/lib.rs).
use attenuate_agent.Prelude.{
  Option, Result, ok, err, panic, map_err, map_err-eq-ok, >>=-eq-ok, Result-cases, ◌≡◌, ◌≢◌, refl,
  sym, ap, ◌∙◌, ◌⊎◌, inl, inr, subst,
}
use attenuate_agent.External.{Uuid, DateTime, Chrono, UuidText, BiscuitAuth, System}
use attenuate_agent.Capability.Data.{RequestBinding, ChildCapability, VerifiedState}
use attenuate_agent.Capability.Token.{verify_and_decode}
use attenuate_agent.Capability.Mirror.{Recovered, verify_and_decode-Recovered}
use attenuate_agent.Pdp.{ToolRequest, Decision, allow, deny, decide}
use attenuate_agent.Pdp.Decide.{decide-permissions_eq}
use attenuate_agent.Capability.Attestation.{permissions_eq_iff}
use attenuate_agent.Pep.Acceptance.{Acceptable, verify_iff}
use attenuate_agent.Pep.Soundness.{check_state_iff}
use attenuate_agent.Pep.Verify.{VerifiedCapability, verify, from_capability_error}
use attenuate_agent.Tools.{
  ToolCall, ToolOutput, ToolError, verification, Crates, to_request, actual_binding,
  decision_result, authorize_only, execute, dispatch,
}

module _ (ch : Chrono) (ids : UuidText) (bis : BiscuitAuth) where
  -- The state that `verify` hands on is the recovered one.
  pub verify-Recovered :
      (child : ChildCapability) (now : DateTime) (binding : Option RequestBinding)
      {v : VerifiedCapability}
      → verify ch ids bis child now binding ≡ ok v
      → Recovered ch ids bis child v.state
  unfolding verify
  verify-Recovered child now binding {v} h =
      let (state, e, h') =
        >>=-eq-ok (map_err from_capability_error (verify_and_decode ch ids bis child)) _ h in
      let r =
        verify_and_decode-Recovered ch ids bis child (map_err-eq-ok from_capability_error _ e) in
      subst (λ s. Recovered ch ids bis child s) (sym ((check_state_iff now binding state v).0 h').2)
        r

module _ (sys : System) (crates : Crates) where
  -- The machine after the one reading of the clock that authorization makes.
  abbrev pub clocked : sys.World → sys.World
  clocked w = (sys.now w).1

  -- The three ways that authorization goes: it fails before the clock is read, it fails after, or the
  -- request is allowed by the permissions of a verified state.
  pub data Authorization (child : ChildCapability) (request : ToolRequest) (nonce : Option Uuid)
      (w : sys.World) : Type 0 where
    unbound :
        (r : Result ToolError (Unit {0}))
        → authorize_only sys crates child request nonce w ≡ (r, w)
        → r ≢ ok tt
        → Authorization child request nonce w
    refused :
        (r : Result ToolError (Unit {0}))
        → authorize_only sys crates child request nonce w ≡ (r, clocked w)
        → r ≢ ok tt
        → Authorization child request nonce w
    granted :
        (v : VerifiedCapability) (binding : Option RequestBinding)
        → actual_binding crates.hash crates.to_json request nonce ≡ ok binding
        → verify crates.chrono crates.uuid crates.biscuit child (sys.now w).0 binding ≡ ok v
        → decide (sys.files (clocked w)) v.state.permissions request ≡ allow
        → authorize_only sys crates child request nonce w ≡ (ok tt, clocked w)
        → Authorization child request nonce w

  decided : (d : Decision) → (d ≡ allow) ⊎ (decision_result d ≢ ok tt)
  unfolding decision_result
  decided allow = inl refl
  decided (deny reason) = inr (λ e. cc)

  pub authorization :
      (child : ChildCapability) (request : ToolRequest) (nonce : Option Uuid) (w : sys.World)
      → Authorization child request nonce w
  unfolding authorize_only decision_result
  authorization child request nonce w =
      elim (Result-cases (actual_binding crates.hash crates.to_json request nonce)) [
        | inr (inl (e, q)) ↦ unbound (err e) (rw q) (λ x. cc)
        | inr (inr q) ↦ unbound panic (rw q) (λ x. cc)
        | inl (b, q) ↦
            elim (Result-cases
              (verify crates.chrono crates.uuid crates.biscuit child (sys.now w).0 b)) [
                | inr (inl (e, p)) ↦ refused (err (verification e)) (rw (q, p)) (λ x. cc)
                | inr (inr p) ↦ refused panic (rw (q, p)) (λ x. cc)
                | inl (v, p) ↦
                    let d = decide (sys.files (clocked w)) v.state.permissions request in
                    elim (decided d) [
                      | inl e ↦ granted v b q p e (rw (q, p, e))
                      | inr n ↦ refused (decision_result d) (rw (q, p)) n
                    ]
              ]
      ]

  -- The capability admits the call at this moment: its token attests its struct, has not expired and
  -- is bound to no other call, and its permissions allow the request.
  pub record Admitted (child : ChildCapability) (call : ToolCall) (nonce : Option Uuid)
      (w : sys.World) : Type 0 where
    pub state : VerifiedState
    pub binding : Option RequestBinding
    pub encoded : actual_binding crates.hash crates.to_json (to_request call) nonce ≡ ok binding
    pub acceptable :
        Acceptable crates.chrono crates.uuid crates.biscuit child (sys.now w).0 binding state
    pub allowed : decide (sys.files (clocked w)) child.permissions (to_request call) ≡ allow

  Admitted-authorize_only :
      (child : ChildCapability) (call : ToolCall) (nonce : Option Uuid) (w : sys.World)
      → Admitted child call nonce w
      → authorize_only sys crates child (to_request call) nonce w ≡ (ok tt, clocked w)
  unfolding authorize_only decision_result
  Admitted-authorize_only child call supplied w a =
      let v : VerifiedCapability = record { state = a.state } in
      let q =
        (verify_iff crates.chrono crates.uuid crates.biscuit child (sys.now w).0 a.binding v).1
          a.acceptable in
      let same =
        (permissions_eq_iff a.state.permissions child.permissions).1
          a.acceptable.attested.same_permissions in
      let d =
        decide-permissions_eq (sys.files (clocked w)) a.state.permissions child.permissions
          (to_request call) same
        ∙ a.allowed in
      rw (a.encoded, q, d) refl

  -- A failure that did nothing to the machine but at most read the clock.
  abbrev pub Fails : ChildCapability → ToolCall → Option Uuid → sys.World → Type 0
  Fails child call nonce w =
      (r : Result ToolError ToolOutput) × (v : sys.World) × (dispatch sys crates child call nonce w
        ≡ (r, v))
      × ((v ≡ w) ⊎ (v ≡ clocked w))
      × ((output : ToolOutput) → r ≢ ok output)

  -- The call is admitted and executed, or it is not admitted and fails.
  abbrev pub Mediated : ChildCapability → ToolCall → Option Uuid → sys.World → Type 0
  Mediated child call nonce w =
      (Admitted child call nonce w
        × (dispatch sys crates child call nonce w ≡ execute sys call (clocked w)))
      ⊎ ((Admitted child call nonce w → ⊥) × Fails child call nonce w)

  refused-Admitted :
      (child : ChildCapability) (call : ToolCall) (nonce : Option Uuid) (w v : sys.World)
      (r : Result ToolError (Unit {0}))
      → authorize_only sys crates child (to_request call) nonce w ≡ (r, v)
      → r ≢ ok tt
      → Admitted child call nonce w
      → ⊥
  refused-Admitted child call nonce w v r e n a = n (
      ap (λ (x : Result ToolError (Unit {0}) × sys.World). x.0)
        (sym e ∙ Admitted-authorize_only child call nonce w a))

  -- `dispatch` executes a call exactly when the capability admits it: its token is read under its key
  -- and shows the permissions, the expiry and the binding of its struct, it has not expired at the
  -- reading of the clock, it is bound to this call and nonce if it is bound, and its permissions allow
  -- the request in the state of the files at that moment. Then the result is that of executing the
  -- call in that state. Otherwise `dispatch` fails, with nothing done but at most that reading.
  pub dispatch-Mediated :
      (child : ChildCapability) (call : ToolCall) (nonce : Option Uuid) (w : sys.World)
      → Mediated child call nonce w
  unfolding dispatch
  dispatch-Mediated child call nonce w = from (authorization child (to_request call) nonce w)
    where
      from : Authorization child (to_request call) nonce w → Mediated child call nonce w
      from (unbound (ok tt) e n) = absurd (n refl)
      from (unbound (err x) e n) = inr (
        refused-Admitted child call nonce w w (err x) e n,
        (err x, w, rw e, inl refl, λ output k. cc),
      )
      from (unbound panic e n) = inr (
        refused-Admitted child call nonce w w panic e n,
        (panic, w, rw e, inl refl, λ output k. cc),
      )
      from (refused (ok tt) e n) = absurd (n refl)
      from (refused (err x) e n) = inr (
        refused-Admitted child call nonce w (clocked w) (err x) e n,
        (err x, clocked w, rw e, inr refl, λ output k. cc),
      )
      from (refused panic e n) = inr (
        refused-Admitted child call nonce w (clocked w) panic e n,
        (panic, clocked w, rw e, inr refl, λ output k. cc),
      )
      from (granted v b q p d e) =
          let a =
            (verify_iff crates.chrono crates.uuid crates.biscuit child (sys.now w).0 b v).0 p in
          let same =
            (permissions_eq_iff v.state.permissions child.permissions).1
              a.attested.same_permissions in
          inl (
            record {
              state = v.state;
              binding = b;
              encoded = q;
              acceptable = a;
              allowed =
                  sym (
                    decide-permissions_eq (sys.files (clocked w)) v.state.permissions
                      child.permissions (to_request call) same)
                  ∙ d;
            },
            rw e,
          )
