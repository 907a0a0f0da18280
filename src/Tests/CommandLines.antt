-- ===== src/Tests/CommandLines.antt =====
-- The theorems on the command line at a run with a manifest and a calls file.
use attenuate_agent.Prelude.{
  Option, none, some, List, [], ◌∷◌, Text, text, text_eq, Result, ok, err, if◌then◌else◌, refl,
}
use attenuate_agent.Manifest.{TaskManifest}
use attenuate_agent.Tools.{ToolCall}
use attenuate_agent.CommandLine.{Environment, mode_of, main}
use attenuate_agent.CommandLine.Setup.{Contained}
use attenuate_agent.CommandLine.Containment.{main-Contained}
use attenuate_agent.Tests.Jsons.{small_json}
use attenuate_agent.Tests.Dialogues.{listed, answers}
use attenuate_agent.Tests.Machine.{World, machine, crates, world, manifest}
use attenuate_agent.Tests.Sessions.{script}

-- The machine with the two files.
abbrev prepared : World
prepared = record world {
  contents =
      (text "/manifest.json", text "a manifest")
      ∷ (text "/calls.json", text "some calls")
      ∷ (text "/work/a", text "hello")
      ∷ [];
}

abbrev parse_manifest : Text → Result Text TaskManifest
parse_manifest s = if text_eq s (text "a manifest") then ok manifest else err (text "no manifest")

abbrev parse_calls : Text → Result Text (List ToolCall)
parse_calls s = if text_eq s (text "some calls") then ok script else err (text "no calls")

abbrev unset : Text → Option Text
unset name = none

abbrev based : Text → Option Text
based name = if text_eq name (text "BASE_URL") then some (text "http://localhost") else none

abbrev env : Environment
env = record {
  args = text "warden-agent" ∷ text "/manifest.json" ∷ text "/calls.json" ∷ [];
  var = unset;
}

main-Contained_example :
    Contained machine crates small_json listed parse_manifest parse_calls 5 env.args prepared
      (main machine crates small_json listed parse_manifest parse_calls 5 env
        (prepared, answers)).1.0
unfolding mode_of
main-Contained_example =
    main-Contained machine crates small_json listed parse_manifest parse_calls 5 env prepared
      answers refl

-- With enforcement off the run is short enough to be computed.
abbrev off : Text → Option Text
off name = if text_eq name (text "AUTHZ") then some (text "OFF ") else none

abbrev off_env : Environment
off_env = record {
  args = text "warden-agent" ∷ text "/manifest.json" ∷ text "/calls.json" ∷ [];
  var = off;
}
