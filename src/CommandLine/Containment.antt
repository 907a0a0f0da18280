-- ===== src/CommandLine/Containment.antt =====
-- Whatever its arguments and its environment, the command line acts on the machine only within the
-- manifest that it was given, unless `AUTHZ` switches enforcement off (agent/src/main.rs).
use attenuate_agent.Prelude.{
  Option, none, some, List, [], ◌∷◌, In, Text, text, Result, ok, err, panic, Result-cases, ◌≡◌,
  refl, sym, ◌∙◌, subst, inl, inr,
}
use attenuate_agent.External.{System}
use attenuate_agent.External.Json.{Json}
use attenuate_agent.External.Http.{Http}
use attenuate_agent.Manifest.{TaskManifest}
use attenuate_agent.Tools.{ToolCall, Crates}
use attenuate_agent.Agent.Mode.{AuthzMode, enforced}
use attenuate_agent.Agent.Feedback.{StepOutcome}
use attenuate_agent.Agent.Orchestrator.{Orchestrator, State, new}
use attenuate_agent.Agent.Principal.{Session, run, run_principal}
use attenuate_agent.Agent.Confinement.{Confined, run_principal-Confined}
use attenuate_agent.Agent.AuditLog.{new-IsLogged}
use attenuate_agent.Agent.Chat.{ChatResponse, ChatRequest}
use attenuate_agent.Agent.Client.{openai, default_max_turns}
use attenuate_agent.CommandLine.{
  Environment, Outcome, mode_of, finish_feed, run_feed, finish_live, live_session, run_live, drive,
  with_orchestrator, with_manifest, main_with, main,
}
use attenuate_agent.CommandLine.Setup.{
  Setup, here, Granted, Contained, read_parsed-Setup, read_parsed-ok, new-Setup, run-Confined,
}

module _ (sys : System) (crates : Crates) (json : Json)
    (http : Http (ChatRequest json) ChatResponse) (parse_manifest : Text → Result Text TaskManifest)
    (parse_calls : Text → Result Text (List ToolCall)) (keypair : crates.biscuit.KeyPair) where
  finish_feed-machine :
      (mode : AuthzMode) (net : http.Server) (r : Result Text (List StepOutcome) × State sys crates)
      → (finish_feed sys crates json http parse_manifest parse_calls keypair mode net r).1
        ≡ (r.1.1, net)
  unfolding finish_feed
  finish_feed-machine mode net (ok outcomes, (o, w)) = refl
  finish_feed-machine mode net (err e, (o, w)) = refl
  finish_feed-machine mode net (panic, (o, w)) = refl

  finish_live-machine :
      (mode : AuthzMode) (r : Result Text (Unit {0}) × Session sys crates (openai json http))
      → (finish_live sys crates json http parse_manifest parse_calls keypair mode r).1
        ≡ (r.1.state.1, r.1.principal.1)
  unfolding finish_live
  finish_live-machine mode (ok done, s) = refl
  finish_live-machine mode (err e, s) = refl
  finish_live-machine mode (panic, s) = refl

  module _ (args : List Text) (w : sys.World) where
    abbrev Ends : Outcome × (sys.World × http.Server) → Type 0
    Ends (out, (w', net)) =
        Contained sys crates json http parse_manifest parse_calls keypair args w w'

    module _ (o : Orchestrator) (on : o.mode ≡ enforced)
        (granted : Granted sys crates json http parse_manifest parse_calls keypair args w o.root)
        (mode : AuthzMode) where
      run_feed-Ends :
          (calls : Result Text (List ToolCall)) (v : sys.World) (net : http.Server)
          → Setup sys args w v
          → Ends (
              run_feed sys crates json http parse_manifest parse_calls keypair mode o calls
                (v, net))
      unfolding run_feed
      run_feed-Ends (ok calls) v net s = inr (
        o.root,
        v,
        granted,
        s,
        subst (λ (m : sys.World × http.Server). Confined sys crates o.root.permissions v m.0)
            (sym (finish_feed-machine mode net (run sys crates calls (o, v))))
            (run-Confined sys crates calls o v on),
      )
      run_feed-Ends (err e) v net s = inl s
      run_feed-Ends panic v net s = inl s

      run_live-Ends :
          (manifest : TaskManifest) (base_url : Option Text) (var : Text → Option Text)
          (v : sys.World) (net : http.Server)
          → Setup sys args w v
          → Ends (
              run_live sys crates json http parse_manifest parse_calls keypair mode manifest o
                base_url var
                (v, net))
      unfolding run_live live_session
      run_live-Ends manifest none var v net s = inl s
      run_live-Ends manifest (some base_url) var v net s =
          let session =
            live_session sys crates json http parse_manifest parse_calls keypair manifest o base_url
              var (v, net) in
          inr (
            o.root,
            v,
            granted,
            s,
            subst (λ (m : sys.World × http.Server). Confined sys crates o.root.permissions v m.0)
                (sym (
                  finish_live-machine mode
                    (run_principal sys crates (openai json http) default_max_turns session)))
                (run_principal-Confined sys crates (openai json http) default_max_turns session
                  on).0,
          )

      drive-Ends :
          (manifest : TaskManifest) (rest : List Text) (var : Text → Option Text) (v : sys.World)
          (net : http.Server)
          → ((path : Text) → In path rest → In path args)
          → Setup sys args w v
          → Ends (
              drive sys crates json http parse_manifest parse_calls keypair mode manifest o rest var
                (v, net))
      unfolding drive
      drive-Ends manifest [] var v net i s = run_live-Ends manifest _ var v net s
      drive-Ends manifest (path ∷ more) var v net i s = run_feed-Ends _ _ net (
          read_parsed-Setup sys parse_calls (text "reading calls") (text "parsing calls json") path
            args w v (i path (inl refl)) s)

    with_manifest-Ends :
        (mode : AuthzMode) (rest : List Text) (var : Text → Option Text)
        (r : Result Text TaskManifest) (path : Text) (v : sys.World) (net : http.Server)
        → mode ≡ enforced
        → In path args
        → ((other : Text) → In other rest → In other args)
        → ((manifest : TaskManifest)
            → r ≡ ok manifest
            → (content : Text) × ((sys.read_to_string path w).0 ≡ ok content)
              × (parse_manifest content ≡ ok manifest))
        → Setup sys args w v
        → Ends (
            with_manifest sys crates json http parse_manifest parse_calls keypair mode rest var r
              (v, net))
    unfolding with_manifest with_orchestrator
    with_manifest-Ends mode rest var (err e) path v net on named others held s = inl s
    with_manifest-Ends mode rest var panic path v net on named others held s = inl s
    with_manifest-Ends mode rest var (ok manifest) path v net on named others held s =
        let s' = new-Setup sys crates keypair manifest mode args w v s in
        elim (Result-cases (new sys crates keypair manifest mode v).0) [
          | inr (inl (e, q)) ↦ rw q (inl s')
          | inr (inr q) ↦ rw q (inl s')
          | inl (o, q) ↦
              let (logged, same_mode, task, minted) =
                new-IsLogged sys crates keypair manifest mode v q in
              let (content, read, parsed) = held manifest refl in
              rw q (
                drive-Ends o (same_mode ∙ on)
                  (record {
                    path = path;
                    named = named;
                    content = content;
                    held = read;
                    manifest = manifest;
                    parsed = parsed;
                    at = v;
                    minted = minted;
                  })
                  mode manifest rest var (new sys crates keypair manifest mode v).1 net others s')
        ]

  main_with-Ends :
      (mode : AuthzMode) (args : List Text) (var : Text → Option Text) (w : sys.World)
      (net : http.Server)
      → mode ≡ enforced
      → Ends args w
          (main_with sys crates json http parse_manifest parse_calls keypair mode args var (w, net))
  unfolding main_with
  main_with-Ends mode [] var w net on = inl here
  main_with-Ends mode (program ∷ []) var w net on = inl here
  main_with-Ends mode (program ∷ path ∷ rest) var w net on =
      let args = program ∷ path ∷ rest in
      with_manifest-Ends args w mode rest var _ path _ net on (inr (inl refl))
        (λ other i. inr (inr i))
        (λ manifest h.
          read_parsed-ok sys parse_manifest (text "reading manifest") (text "parsing manifest json")
            path w h)
        (read_parsed-Setup sys parse_manifest (text "reading manifest")
          (text "parsing manifest json") path args w w (inr (inl refl)) here)

  -- Unless `AUTHZ` is set to switch enforcement off, and whatever the other variables and the
  -- arguments are, a scripted feed contains or a live model asks for, the machine only goes through
  -- what the program does for itself, readings of the clock and of files that its arguments name and
  -- draws of random ids, and then through what the permissions of a root allow that was minted from
  -- the manifest in such a file.
  pub main-Contained :
      (env : Environment) (w : sys.World) (net : http.Server)
      → mode_of (env.var (text "AUTHZ")) ≡ enforced
      → Contained sys crates json http parse_manifest parse_calls keypair env.args w
          (main sys crates json http parse_manifest parse_calls keypair env (w, net)).1.0
  unfolding main
  main-Contained env w net on =
      main_with-Ends (mode_of (env.var (text "AUTHZ"))) env.args env.var w net on
