-- ===== src/Agent/AuditLog.antt =====
-- The log of an orchestrator verifies after any run, and entries are only added at its end.
use attenuate_agent.Prelude.{
  ℕ, Option, none, some, List, [], ◌∷◌, ◌++◌, Text, Result, ok, err, panic, ok-injective, ◌≡◌, refl,
  sym, subst, arith, ap, ◌∙◌,
}
use mathlib.Core.List.{append_assoc, append-nil}
use attenuate_agent.External.{Uuid, DateTime, System}
use attenuate_agent.Manifest.{TaskManifest}
use attenuate_agent.Capability.Token.{mint}
use attenuate_agent.Capability.Data.{RootCapability, CapabilityError}
use attenuate_agent.Audit.{AuditEntry, AuditEvent, root_minted, verify_chain}
use attenuate_agent.Audit.Chain.{
  Follows, last_from, last_from-append, IsChain-append, verify_chain_iff,
}
use attenuate_agent.Tools.{Crates}
use attenuate_agent.Agent.Mode.{AuthzMode}
use attenuate_agent.Agent.Orchestrator.{Orchestrator, initial, append_entry, start, new}
use attenuate_agent.Agent.AuditTrail.{entry_of, run_principal-keeps}
use attenuate_agent.Agent.Principal.{Principal, Session, run_principal}

-- The hash that the next entry will carry is that of the last entry.
abbrev pub Tip : Option AuditEntry → Text → Type 0
Tip none h = Unit
Tip (some e) h = h ≡ e.entry_hash

Tip-Follows :
    (p : Option AuditEntry) (h : Text) (e : AuditEntry)
    → Tip p h
    → e.previous_hash ≡ h
    → Follows p e
Tip-Follows none h e t q = tt
Tip-Follows (some p) h e t q = q ∙ t

module _ (sys : System) (crates : Crates) where
  -- The log verifies, the next entry will continue it, and it begins with `base`.
  pub record IsLogged (base : List AuditEntry) (o : Orchestrator) : Type 0 where
    pub verified : verify_chain crates.chrono crates.hash o.audit_log ≡ ok tt
    pub tip : Tip (last_from none o.audit_log) o.previous_hash
    pub added : List AuditEntry
    pub extends : o.audit_log ≡ base ++ added

  append_entry-IsLogged :
      (base : List AuditEntry) (o : Orchestrator) (event : AuditEvent) (id : Uuid) (t : DateTime)
      → IsLogged base o
      → IsLogged base (append_entry (entry_of sys crates o event id t) o)
  unfolding append_entry
  append_entry-IsLogged base o event id t l =
      let e = entry_of sys crates o event id t in
      record {
        verified = (verify_chain_iff crates.chrono crates.hash _).1 (
            IsChain-append crates.chrono crates.hash none o.audit_log e
              ((verify_chain_iff crates.chrono crates.hash o.audit_log).0 l.verified) refl
              (Tip-Follows (last_from none o.audit_log) o.previous_hash e l.tip refl));
        tip = rw last_from-append refl;
        added = l.added ++ (e ∷ []);
        extends = ap (λ es. es ++ (e ∷ [])) l.extends ∙ append_assoc base l.added (e ∷ []);
      }

  -- From an orchestrator whose log verifies and whose next entry will continue it, any run of any
  -- principal, in either mode, ends with such a log, which begins with the entries that were there.
  pub run_principal-IsLogged :
      (pr : Principal) (turns : ℕ) (s : Session sys crates pr)
      → verify_chain crates.chrono crates.hash s.state.0.audit_log ≡ ok tt
      → Tip (last_from none s.state.0.audit_log) s.state.0.previous_hash
      → IsLogged s.state.0.audit_log (run_principal sys crates pr turns s).1.state.0
  run_principal-IsLogged pr turns s v t =
      run_principal-keeps sys crates (IsLogged s.state.0.audit_log)
        (append_entry-IsLogged s.state.0.audit_log) pr turns s
        (record {
          verified = v;
          tip = t;
          added = [];
          extends = sym (append-nil s.state.0.audit_log);
        })

  start-IsLogged :
      (manifest : TaskManifest) (mode : AuthzMode) (r : Result CapabilityError RootCapability)
      (w : sys.World) {o : Orchestrator}
      → (start sys crates manifest mode r w).0 ≡ ok o
      → IsLogged [] o × (o.mode ≡ mode) × (o.task_id ≡ manifest.task_id) × (r ≡ ok o.root)
  unfolding start
  start-IsLogged manifest mode (err e) w h = absurd (ground arith)
  start-IsLogged manifest mode panic w h = absurd (ground arith)
  start-IsLogged manifest mode (ok root) w h =
      subst
        (λ (x : Orchestrator).
          IsLogged [] x
          × (x.mode ≡ mode)
          × (x.task_id ≡ manifest.task_id)
          × (◌≡◌ {A = Result CapabilityError RootCapability} (ok root) (ok x.root)))
        (ok-injective h)
        (
          append_entry-IsLogged [] (initial root manifest mode) (root_minted manifest.task_id) _ _
              (record {
                verified = (verify_chain_iff crates.chrono crates.hash []).1 tt;
                tip = tt;
                added = [];
                extends = refl;
              }),
          refl,
          refl,
          refl,
        )

  -- A new orchestrator has the mode and the task that it was given and a root minted from the
  -- manifest, and a log that verifies and that its next entry will continue.
  pub new-IsLogged :
      (keypair : crates.biscuit.KeyPair) (manifest : TaskManifest) (mode : AuthzMode)
      (w : sys.World) {o : Orchestrator}
      → (new sys crates keypair manifest mode w).0 ≡ ok o
      → IsLogged [] o
        × (o.mode ≡ mode)
        × (o.task_id ≡ manifest.task_id)
        × (mint
              (sys.files (sys.now w).1)
              crates.chrono
              crates.uuid
              crates.biscuit
              keypair
              manifest
              (sys.now w).0
            ≡ ok o.root)
  unfolding new
  new-IsLogged keypair manifest mode w h = start-IsLogged manifest mode _ (sys.now w).1 h
