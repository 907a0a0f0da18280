-- ===== src/CommandLine/Feed.antt =====
-- A calls file selects the scripted feed (agent/src/main.rs).
use attenuate_agent.Prelude.{Option, List, ◌∷◌, Text, Result, ok, err, panic, ◌≡◌, refl}
use attenuate_agent.External.{System}
use attenuate_agent.External.Json.{Json}
use attenuate_agent.External.Http.{Http}
use attenuate_agent.Manifest.{TaskManifest}
use attenuate_agent.Tools.{ToolCall, Crates}
use attenuate_agent.Agent.Mode.{AuthzMode}
use attenuate_agent.Agent.Feedback.{StepOutcome}
use attenuate_agent.Agent.Orchestrator.{Orchestrator, OrchestratorError, State}
use attenuate_agent.Agent.Principal.{run}
use attenuate_agent.Agent.Chat.{ChatResponse, ChatRequest}
use attenuate_agent.Agent.Offline.{Offline}
use attenuate_agent.CommandLine.Setup.{Setup}
use attenuate_agent.CommandLine.{
  Outcome, finish_feed, run_feed, drive, with_orchestrator, with_manifest, main_with,
}

module _ (sys : System) (crates : Crates) (json : Json)
    (http : Http (ChatRequest json) ChatResponse) (parse_manifest : Text → Result Text TaskManifest)
    (parse_calls : Text → Result Text (List ToolCall)) (keypair : crates.biscuit.KeyPair)
    (mode : AuthzMode) (var other : Text → Option Text) where
  -- The same end on the same machine, with what answers HTTP requests as it was.
  abbrev Same :
      http.Server
      → Outcome × (sys.World × http.Server)
      → Outcome × (sys.World × http.Server)
      → Type 0
  Same net r q = (r ≡ q) × (r.1.1 ≡ net)

  finish_feed-net :
      (net : http.Server) (r : Result Text (List StepOutcome) × State sys crates)
      → (finish_feed sys crates json http parse_manifest parse_calls keypair mode net r).1.1 ≡ net
  unfolding finish_feed
  finish_feed-net net (ok outcomes, (o, w)) = refl
  finish_feed-net net (err e, (o, w)) = refl
  finish_feed-net net (panic, (o, w)) = refl

  run_feed-net :
      (o : Orchestrator) (calls : Result Text (List ToolCall)) (w : sys.World) (net : http.Server)
      → (run_feed sys crates json http parse_manifest parse_calls keypair mode o calls (w, net)).1.1
        ≡ net
  unfolding run_feed
  run_feed-net o (ok calls) w net = finish_feed-net net (run sys crates calls (o, w))
  run_feed-net o (err e) w net = refl
  run_feed-net o panic w net = refl

  with_orchestrator-Same :
      (manifest : TaskManifest) (path : Text) (more : List Text)
      (r : Result OrchestratorError Orchestrator) (w : sys.World) (net : http.Server)
      → Same net
          (with_orchestrator sys crates json http parse_manifest parse_calls keypair mode manifest
            (path ∷ more)
            var
            r
            (w, net))
          (with_orchestrator sys crates json http parse_manifest parse_calls keypair mode manifest
            (path ∷ more)
            other
            r
            (w, net))
  unfolding with_orchestrator drive
  with_orchestrator-Same manifest path more (ok o) w net = (refl, run_feed-net o _ _ net)
  with_orchestrator-Same manifest path more (err e) w net = (refl, refl)
  with_orchestrator-Same manifest path more panic w net = (refl, refl)

  with_manifest-Same :
      (path : Text) (more : List Text) (r : Result Text TaskManifest) (w : sys.World)
      (net : http.Server)
      → Same net
          (with_manifest sys crates json http parse_manifest parse_calls keypair mode
            (path ∷ more)
            var
            r
            (w, net))
          (with_manifest sys crates json http parse_manifest parse_calls keypair mode
            (path ∷ more)
            other
            r
            (w, net))
  unfolding with_manifest
  with_manifest-Same path more (ok manifest) w net =
      with_orchestrator-Same manifest path more _ _ net
  with_manifest-Same path more (err e) w net = (refl, refl)
  with_manifest-Same path more panic w net = (refl, refl)

  pub main_with-Same :
      (program manifest_path path : Text) (more : List Text) (w : sys.World) (net : http.Server)
      → Same net
          (main_with sys crates json http parse_manifest parse_calls keypair mode
            (program ∷ manifest_path ∷ path ∷ more)
            var
            (w, net))
          (main_with sys crates json http parse_manifest parse_calls keypair mode
            (program ∷ manifest_path ∷ path ∷ more)
            other
            (w, net))
  unfolding main_with
  main_with-Same program manifest_path path more w net = with_manifest-Same path more _ _ net
