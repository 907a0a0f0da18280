-- ===== src/CommandLine/Reports.antt =====
-- What the two ways to run a session report, where the program succeeds (agent/src/main.rs).
use attenuate_agent.Prelude.{
  Option, none, some, List, [], ◌∷◌, Text, text, Result, ok, err, panic, ◌≡◌, ◌≢◌, refl, sym, ap,
  ◌∙◌, arith,
}
use attenuate_agent.External.{System}
use attenuate_agent.External.Json.{Json}
use attenuate_agent.External.Http.{Http}
use attenuate_agent.Manifest.{TaskManifest}
use attenuate_agent.Tools.{ToolCall, Crates}
use attenuate_agent.Agent.Mode.{AuthzMode}
use attenuate_agent.Agent.Feedback.{StepOutcome}
use attenuate_agent.Agent.Orchestrator.{Orchestrator, State}
use attenuate_agent.Agent.Principal.{Session, run, run_principal}
use attenuate_agent.Agent.Replay.{run-calls}
use attenuate_agent.Agent.Chat.{ChatResponse, ChatRequest}
use attenuate_agent.Agent.Client.{openai, default_max_turns}
use attenuate_agent.CommandLine.{
  Outcome, success, report, finish_feed, run_feed, finish_live, live_session, run_live, drive,
}
use attenuate_agent.CommandLine.Account.{IsReport, IsNew, Feeds, session-IsReport, run-IsReport}
use attenuate_agent.CommandLine.Report.{mode_line, report_lines}
use attenuate_agent.CommandLine.Setup.{read_parsed-ok}

module _ (sys : System) (crates : Crates) (json : Json)
    (http : Http (ChatRequest json) ChatResponse) (parse_manifest : Text → Result Text TaskManifest)
    (parse_calls : Text → Result Text (List ToolCall)) (keypair : crates.biscuit.KeyPair) where
  -- A success reports some outcomes, which are those of the calls file, if one is named.
  abbrev pub Reports :
      AuthzMode → TaskManifest → List Text → Outcome × (sys.World × http.Server) → Type 0
  Reports mode manifest rest r =
      r.0.exit ≡ success
      → (outcomes : List StepOutcome) × IsReport sys crates mode manifest.task_id r.0 outcomes
        × Feeds sys crates parse_calls rest outcomes

  finish_feed-Reports :
      (mode : AuthzMode) (manifest : TaskManifest) (rest : List Text) (net : http.Server)
      (r : Result Text (List StepOutcome) × State sys crates)
      → ((outcomes : List StepOutcome)
          → r.0 ≡ ok outcomes
          → IsReport sys crates mode manifest.task_id
              (record {
                printed = mode_line mode ∷ report_lines crates.uuid outcomes r.1.0.audit_log;
                exit = success;
              })
              outcomes)
      → ((outcomes : List StepOutcome)
          → r.0 ≡ ok outcomes
          → Feeds sys crates parse_calls rest outcomes)
      → Reports mode manifest rest
          (finish_feed sys crates json http parse_manifest parse_calls keypair mode net r)
  unfolding finish_feed report
  finish_feed-Reports mode manifest rest net (ok outcomes, (o, w)) printed fed e =
      (outcomes, printed outcomes refl, fed outcomes refl)
  finish_feed-Reports mode manifest rest net (err x, (o, w)) printed fed e = absurd (ground arith)
  finish_feed-Reports mode manifest rest net (panic, (o, w)) printed fed e = absurd (ground arith)

  run_feed-Reports :
      (mode : AuthzMode) (manifest : TaskManifest) (o : Orchestrator) (path : Text)
      (more : List Text) (v w : sys.World) (calls : Result Text (List ToolCall)) (net : http.Server)
      → IsNew sys crates mode manifest.task_id o
      → ((cs : List ToolCall)
          → calls ≡ ok cs
          → (content : Text) × ((sys.read_to_string path v).0 ≡ ok content)
            × (parse_calls content ≡ ok cs))
      → Reports mode manifest
          (path ∷ more)
          (run_feed sys crates json http parse_manifest parse_calls keypair mode o calls (w, net))
  unfolding run_feed
  run_feed-Reports mode manifest o path more v w (ok calls) net fresh held =
      let (content, read, parsed) = held calls refl in
      finish_feed-Reports mode manifest (path ∷ more) net (run sys crates calls (o, w))
        (λ outcomes h.
          run-IsReport sys crates mode manifest.task_id o w calls outcomes success fresh h)
        (λ outcomes h.
          (v, content, read, parsed ∙ ap ok (sym (run-calls sys crates calls (o, w) outcomes h))))
  run_feed-Reports mode manifest o path more v w (err x) net fresh held = λ e. absurd (ground arith)
  run_feed-Reports mode manifest o path more v w panic net fresh held = λ e. absurd (ground arith)

  finish_live-Reports :
      (mode : AuthzMode) (manifest : TaskManifest)
      (r : Result Text (Unit {0}) × Session sys crates (openai json http))
      → (r.0 ≢ panic
          → IsReport sys crates mode manifest.task_id
              (record {
                printed =
                    mode_line mode ∷ report_lines crates.uuid r.1.outcomes r.1.state.0.audit_log;
                exit = success;
              })
              r.1.outcomes)
      → Reports mode manifest []
          (finish_live sys crates json http parse_manifest parse_calls keypair mode r)
  unfolding finish_live report
  finish_live-Reports mode manifest (ok done, s) printed e = (s.outcomes, printed (λ x. cc), tt)
  finish_live-Reports mode manifest (err x, s) printed e = absurd (ground arith)
  finish_live-Reports mode manifest (panic, s) printed e = absurd (ground arith)

  run_live-Reports :
      (mode : AuthzMode) (manifest : TaskManifest) (o : Orchestrator) (base_url : Option Text)
      (var : Text → Option Text) (w : sys.World) (net : http.Server)
      → IsNew sys crates mode manifest.task_id o
      → Reports mode manifest [] (
          run_live sys crates json http parse_manifest parse_calls keypair mode manifest o base_url
            var
            (w, net))
  unfolding run_live live_session
  run_live-Reports mode manifest o none var w net fresh = λ e. absurd (ground arith)
  run_live-Reports mode manifest o (some base_url) var w net fresh =
      let s =
        live_session sys crates json http parse_manifest parse_calls keypair manifest o base_url var
          (w, net) in
      finish_live-Reports mode manifest
        (run_principal sys crates (openai json http) default_max_turns s)
        (session-IsReport sys crates mode manifest.task_id o w (openai json http) default_max_turns
          s.principal success fresh)

  pub drive-Reports :
      (mode : AuthzMode) (manifest : TaskManifest) (o : Orchestrator) (rest : List Text)
      (var : Text → Option Text) (w : sys.World) (net : http.Server)
      → IsNew sys crates mode manifest.task_id o
      → Reports mode manifest rest (
          drive sys crates json http parse_manifest parse_calls keypair mode manifest o rest var
            (w, net))
  unfolding drive
  drive-Reports mode manifest o [] var w net fresh =
      run_live-Reports mode manifest o _ var w net fresh
  drive-Reports mode manifest o (path ∷ more) var w net fresh =
      run_feed-Reports mode manifest o path more w _ _ net fresh (λ cs h.
        read_parsed-ok sys parse_calls (text "reading calls") (text "parsing calls json") path w h)
