-- ===== src/CommandLine/Log.antt =====
-- What the command line reports of a run that succeeded (agent/src/main.rs).
use attenuate_agent.Prelude.{List, [], ◌∷◌, Text, Result, ok, ◌≡◌}
use attenuate_agent.External.{System}
use attenuate_agent.External.Json.{Json}
use attenuate_agent.External.Http.{Http}
use attenuate_agent.Manifest.{TaskManifest}
use attenuate_agent.Tools.{ToolCall, Crates}
use attenuate_agent.Agent.Mode.{AuthzMode}
use attenuate_agent.Agent.Feedback.{StepOutcome}
use attenuate_agent.Agent.Chat.{ChatResponse, ChatRequest}
use attenuate_agent.CommandLine.{Outcome}
use attenuate_agent.CommandLine.Account.{IsReport, Feeds}

module _ (sys : System) (crates : Crates) (json : Json)
    (http : Http (ChatRequest json) ChatResponse) (parse_manifest : Text → Result Text TaskManifest)
    (parse_calls : Text → Result Text (List ToolCall)) (keypair : crates.biscuit.KeyPair) where
  -- The manifest of the file that the arguments name, and a report on its task.
  pub record Success (mode : AuthzMode) (path : Text) (rest : List Text) (w : sys.World)
      (out : Outcome) : Type 0 where
    pub content : Text
    pub held : (sys.read_to_string path w).0 ≡ ok content
    pub manifest : TaskManifest
    pub parsed : parse_manifest content ≡ ok manifest
    pub outcomes : List StepOutcome
    pub report : IsReport sys crates mode manifest.task_id out outcomes
    pub feeds : Feeds sys crates parse_calls rest outcomes

  -- The success of a command line that names a manifest.
  abbrev pub Succeeds : AuthzMode → List Text → sys.World → Outcome → Type 0
  Succeeds mode [] w out = ⊥
  Succeeds mode (program ∷ []) w out = ⊥
  Succeeds mode (program ∷ path ∷ rest) w out = Success mode path rest w out
