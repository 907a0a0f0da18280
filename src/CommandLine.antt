-- ===== src/CommandLine.antt =====
-- agent/src/main.rs: the reference command line of the orchestrator.
pub mod Report
pub mod Setup
pub mod Containment
pub mod Feed
pub mod Account
pub mod Reports
pub mod Log
use attenuate_agent.Prelude.{
  Option, none, some, List, [], ◌∷◌, ◌++◌, Text, text, Result, ok, err, panic, map_err,
}
use attenuate_agent.Prelude.Runs.{Run, lift, mapped, ◌>>=◌, ◌>>◌}
use attenuate_agent.External.{System}
use attenuate_agent.External.Json.{Json}
use attenuate_agent.External.Http.{Http}
use attenuate_agent.Manifest.{TaskManifest}
use attenuate_agent.Tools.{ToolCall, Crates}
use attenuate_agent.Agent.Mode.{AuthzMode, enforced, from_env_value}
use attenuate_agent.Agent.Feedback.{StepOutcome}
use attenuate_agent.Agent.Orchestrator.{Orchestrator, OrchestratorError, State, new}
use attenuate_agent.Agent.Principal.{Session, run, run_principal}
use attenuate_agent.Agent.Chat.{ChatResponse, ChatRequest, build_demo_initial_messages}
use attenuate_agent.Agent.Client.{client_new, default_max_turns, openai}
use attenuate_agent.CommandLine.Report.{orchestrator_message, mode_line, report_lines}

-- The arguments, the program's name first, and the environment; `none` for a variable that is not
-- set or is no Unicode.
pub record Environment : Type 0 where
  pub args : List Text
  pub var : Text → Option Text

pub data Exit : Type 0 where
  success : Exit
  failure : Text → Exit
  usage : Exit
  panicked : Exit

-- What was printed on the standard output, line by line, and how the program ended.
pub record Outcome : Type 0 where
  pub printed : List Text
  pub exit : Exit

unfoldable pub mode_of : Option Text → AuthzMode
unfolding from_env_value
mode_of none = enforced
mode_of (some value) = from_env_value value

unfoldable pub model_of : Option Text → Text
model_of none = text "ds4-flash"
model_of (some model) = model

unfoldable pub task_of : TaskManifest → Text
task_of manifest =
    text "You are a coding agent working in the repository at "
    ++ (manifest.repo_root
        ++ text
            ". Fix the failing test in this package. Start by exploring the files (there may be an AGENT_NOTE.md with additional instructions). Use absolute paths under the repository root.")

-- The end of a program that has printed nothing, or its mode only.
unfoldable pub ends : Exit → Outcome
ends exit = record { printed = []; exit = exit }

unfoldable pub ends_in : AuthzMode → Exit → Outcome
unfolding mode_line
ends_in mode exit = record { printed = mode_line mode ∷ []; exit = exit }

module _ (sys : System) where
  -- `serde_json::from_str(&fs::read_to_string(path).context(reading)?).context(parsing)?`
  unfoldable pub read_parsed :
      {A : Type 0} → (Text → Result Text A) → Text → Text → Text → Run sys.World Text A
  read_parsed parse reading parsing path = do
    content ← mapped (map_err (λ e. reading)) (sys.read_to_string path)
    lift (map_err (λ e. parsing) (parse content))

  module _ (crates : Crates) (json : Json) (http : Http (ChatRequest json) ChatResponse)
      (parse_manifest : Text → Result Text TaskManifest)
      (parse_calls : Text → Result Text (List ToolCall)) (keypair : crates.biscuit.KeyPair) where
    -- The machine, and what answers HTTP requests.
    abbrev pub Machine : Type 0
    Machine = sys.World × http.Server

    unfoldable pub report : AuthzMode → Orchestrator → List StepOutcome → Exit → Outcome
    unfolding mode_line report_lines
    report mode o outcomes exit = record {
      printed = mode_line mode ∷ report_lines crates.uuid outcomes o.audit_log;
      exit = exit;
    }

    -- The scripted feed, from the parsed calls on.
    unfoldable pub finish_feed :
        AuthzMode
        → http.Server
        → Result Text (List StepOutcome) × State sys crates
        → Outcome × Machine
    unfolding report ends_in
    finish_feed mode net (ok outcomes, (o, w)) = (report mode o outcomes success, (w, net))
    finish_feed mode net (err e, (o, w)) = (ends_in mode (failure e), (w, net))
    finish_feed mode net (panic, (o, w)) = (ends_in mode panicked, (w, net))

    unfoldable pub run_feed :
        AuthzMode → Orchestrator → Result Text (List ToolCall) → Machine → Outcome × Machine
    unfolding finish_feed
    run_feed mode o (ok calls) (w, net) = finish_feed mode net (run sys crates calls (o, w))
    run_feed mode o (err e) s = (ends_in mode (failure e), s)
    run_feed mode o panic s = (ends_in mode panicked, s)

    -- The live principal: what was executed is reported also when the loop fails.
    unfoldable pub finish_live :
        AuthzMode
        → Result Text (Unit {0}) × Session sys crates (openai json http)
        → Outcome × Machine
    unfolding report ends_in
    finish_live mode (ok done, s) =
        (report mode s.state.0 s.outcomes success, (s.state.1, s.principal.1))
    finish_live mode (err e, s) = (
      report mode s.state.0 s.outcomes (failure (text "live principal loop failed")),
      (s.state.1, s.principal.1),
    )
    finish_live mode (panic, s) = (ends_in mode panicked, (s.state.1, s.principal.1))

    unfoldable pub live_session :
        TaskManifest
        → Orchestrator
        → Text
        → (Text → Option Text)
        → Machine
        → Session sys crates (openai json http)
    unfolding model_of task_of client_new build_demo_initial_messages
    live_session manifest o base_url var (w, net) = record {
      state = (o, w);
      principal = (
        client_new base_url (model_of (var (text "MODEL"))) (var (text "API_KEY"))
            (build_demo_initial_messages (task_of manifest)),
        net,
      );
      outcomes = [];
    }

    unfoldable pub run_live :
        AuthzMode
        → TaskManifest
        → Orchestrator
        → Option Text
        → (Text → Option Text)
        → Machine
        → Outcome × Machine
    unfolding finish_live live_session ends_in
    run_live mode manifest o none var s = (ends_in mode usage, s)
    run_live mode manifest o (some base_url) var s = finish_live mode (
        run_principal sys crates (openai json http) default_max_turns
          (live_session manifest o base_url var s))

    -- A calls file selects the scripted feed, otherwise `BASE_URL` the live principal.
    unfoldable pub drive :
        AuthzMode
        → TaskManifest
        → Orchestrator
        → List Text
        → (Text → Option Text)
        → Machine
        → Outcome × Machine
    unfolding run_feed run_live read_parsed
    drive mode manifest o [] var s = run_live mode manifest o (var (text "BASE_URL")) var s
    drive mode manifest o (path ∷ more) var (w, net) =
        let (calls, w') =
          read_parsed parse_calls (text "reading calls") (text "parsing calls json") path w in
        run_feed mode o calls (w', net)

    -- What follows `Orchestrator::new(&manifest, mode)?`.
    unfoldable pub with_orchestrator :
        AuthzMode
        → TaskManifest
        → List Text
        → (Text → Option Text)
        → Result OrchestratorError Orchestrator
        → Machine
        → Outcome × Machine
    unfolding drive ends orchestrator_message
    with_orchestrator mode manifest rest var (ok o) s = drive mode manifest o rest var s
    with_orchestrator mode manifest rest var (err e) s =
        (ends (failure (orchestrator_message e)), s)
    with_orchestrator mode manifest rest var panic s = (ends panicked, s)

    -- What follows the parsing of the manifest.
    unfoldable pub with_manifest :
        AuthzMode
        → List Text
        → (Text → Option Text)
        → Result Text TaskManifest
        → Machine
        → Outcome × Machine
    unfolding with_orchestrator ends
    with_manifest mode rest var (ok manifest) (w, net) =
        let (o, w') = new sys crates keypair manifest mode w in
        with_orchestrator mode manifest rest var o (w', net)
    with_manifest mode rest var (err e) s = (ends (failure e), s)
    with_manifest mode rest var panic s = (ends panicked, s)

    unfoldable pub main_with :
        AuthzMode → List Text → (Text → Option Text) → Machine → Outcome × Machine
    unfolding with_manifest ends read_parsed
    main_with mode [] var s = (ends panicked, s)
    main_with mode (program ∷ []) var s = (ends usage, s)
    main_with mode (program ∷ path ∷ rest) var (w, net) =
        let (manifest, w') =
          read_parsed parse_manifest (text "reading manifest") (text "parsing manifest json") path
            w in
        with_manifest mode rest var manifest (w', net)

    unfoldable pub main : Environment → Machine → Outcome × Machine
    unfolding main_with mode_of
    main env s = main_with (mode_of (env.var (text "AUTHZ"))) env.args env.var s
