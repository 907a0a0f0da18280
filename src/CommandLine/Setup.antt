-- ===== src/CommandLine/Setup.antt =====
-- What the command line does to the machine for itself, before and beside the calls of the principal
-- (agent/src/main.rs).
use attenuate_agent.Prelude.{
  List, [], In, Text, Result, ok, err, panic, map_err-eq-ok, Result-cases, ◌≡◌, refl, sym, subst,
  ◌⊎◌, inl, inr, arith,
}
use attenuate_agent.External.{System}
use attenuate_agent.External.Json.{Json}
use attenuate_agent.External.Http.{Http}
use attenuate_agent.Manifest.{TaskManifest}
use attenuate_agent.Capability.Data.{RootCapability, CapabilityError}
use attenuate_agent.Capability.Token.{mint}
use attenuate_agent.Tools.{ToolCall, Crates}
use attenuate_agent.Agent.Mode.{AuthzMode, enforced}
use attenuate_agent.Agent.Orchestrator.{Orchestrator, State, start, new}
use attenuate_agent.Agent.Principal.{
  Session, scripted, scripted_new, turn_budget, expect_outcomes, run, run_principal,
}
use attenuate_agent.Agent.Confinement.{Confined, run_principal-Confined}
use attenuate_agent.Agent.Chat.{ChatResponse, ChatRequest}
use attenuate_agent.CommandLine.{read_parsed}

module _ (sys : System) where
  -- What the program does for itself: it reads files that its arguments name and the clock, and draws
  -- random ids.
  pub data Setup (args : List Text) (w : sys.World) : sys.World → Type 0 where
    here : Setup args w w
    clock : {v : sys.World} → Setup args w v → Setup args w (sys.now v).1
    random : {v : sys.World} → Setup args w v → Setup args w (sys.new_v4 v).1
    reads :
        {v : sys.World} (path : Text)
        → In path args
        → Setup args w v
        → Setup args w (sys.read_to_string path v).1

  pub read_parsed-Setup :
      {A : Type 0} (parse : Text → Result Text A) (reading parsing path : Text) (args : List Text)
      (w v : sys.World)
      → In path args
      → Setup args w v
      → Setup args w (read_parsed sys parse reading parsing path v).1
  unfolding read_parsed
  read_parsed-Setup parse reading parsing path args w v i s =
      elim (Result-cases (sys.read_to_string path v).0) [
        | inl (a, e) ↦ rw e (reads path i s)
        | inr (inl (x, e)) ↦ rw e (reads path i s)
        | inr (inr e) ↦ rw e (reads path i s)
      ]

  -- A parsed value is that of the content of the file.
  pub read_parsed-ok :
      {A : Type 0} (parse : Text → Result Text A) (reading parsing path : Text) (v : sys.World)
      {a : A}
      → (read_parsed sys parse reading parsing path v).0 ≡ ok a
      → (content : Text) × ((sys.read_to_string path v).0 ≡ ok content) × (parse content ≡ ok a)
  unfolding read_parsed
  read_parsed-ok parse reading parsing path v h =
      elim (Result-cases (sys.read_to_string path v).0) [
        | inl (c, e) ↦ (c, e, map_err-eq-ok _ (parse c) (rw e at h))
        | inr (inl (x, e)) ↦ absurd (ground arith)
        | inr (inr e) ↦ absurd (ground arith)
      ]

  module _ (crates : Crates) where
    start-Setup :
        (manifest : TaskManifest) (mode : AuthzMode) (r : Result CapabilityError RootCapability)
        (args : List Text) (w v : sys.World)
        → Setup args w v
        → Setup args w (start sys crates manifest mode r v).1
    unfolding start
    start-Setup manifest mode (ok root) args w v s = random (clock s)
    start-Setup manifest mode (err e) args w v s = s
    start-Setup manifest mode panic args w v s = s

    pub new-Setup :
        (keypair : crates.biscuit.KeyPair) (manifest : TaskManifest) (mode : AuthzMode)
        (args : List Text) (w v : sys.World)
        → Setup args w v
        → Setup args w (new sys crates keypair manifest mode v).1
    unfolding new
    new-Setup keypair manifest mode args w v s =
        start-Setup manifest mode _ args w (sys.now v).1 (clock s)

    pub expect_outcomes-state :
        (r : Result Text (Unit {0}) × Session sys crates scripted)
        → (expect_outcomes sys crates r).1 ≡ r.1.state
    unfolding expect_outcomes
    expect_outcomes-state (ok done, s) = refl
    expect_outcomes-state (err e, s) = refl
    expect_outcomes-state (panic, s) = refl

    -- A replayed script is confined as any principal is.
    pub run-Confined :
        (calls : List ToolCall) (o : Orchestrator) (w : sys.World)
        → o.mode ≡ enforced
        → Confined sys crates o.root.permissions w (run sys crates calls (o, w)).1.1
    unfolding run
    run-Confined calls o w on =
        let p = scripted_new calls in
        let s : Session sys crates scripted = record {
          state = (o, w);
          principal = p;
          outcomes = [];
        } in
        subst (λ (t : State sys crates). Confined sys crates o.root.permissions w t.1)
          (sym (expect_outcomes-state (run_principal sys crates scripted (turn_budget p) s)))
          (run_principal-Confined sys crates scripted (turn_budget p) s on).0

    module _ (json : Json) (http : Http (ChatRequest json) ChatResponse)
        (parse_manifest : Text → Result Text TaskManifest)
        (parse_calls : Text → Result Text (List ToolCall)) (keypair : crates.biscuit.KeyPair) where
      -- The root was minted from the manifest that a file named by the arguments holds.
      pub record Granted (args : List Text) (w : sys.World) (root : RootCapability) : Type 0 where
        pub path : Text
        pub named : In path args
        pub content : Text
        pub held : (sys.read_to_string path w).0 ≡ ok content
        pub manifest : TaskManifest
        pub parsed : parse_manifest content ≡ ok manifest
        pub at : sys.World
        pub minted :
            mint
              (sys.files (sys.now at).1)
              crates.chrono
              crates.uuid
              crates.biscuit
              keypair
              manifest
              (sys.now at).0
            ≡ ok root

      -- The program did only its own part, or it then acted within a root so minted.
      abbrev pub Contained : List Text → sys.World → sys.World → Type 0
      Contained args w w' =
          Setup args w w'
          ⊎ ((root : RootCapability) × (v : sys.World) × Granted args w root
              × Setup args w v
              × Confined sys crates root.permissions v w')
