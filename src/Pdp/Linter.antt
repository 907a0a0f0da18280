-- ===== src/Pdp/Linter.antt =====
-- pdp/src/linter.rs
use attenuate_agent.Prelude.{List, [], ◌∷◌, Text, if◌then◌else◌}
use attenuate_agent.FilePath.{path_eq}
use attenuate_agent.Capability.Data.{PermissionSet}

pub data LintFinding : Type 0 where
  always_allow_read : Text → LintFinding

-- The loop over the readable roots.
unfoldable pub lint_roots : List Text → List LintFinding
lint_roots [] = []
lint_roots (root ∷ roots) =
    if path_eq root (b'/' ∷ []) then always_allow_read root ∷ lint_roots roots else lint_roots roots

unfoldable pub lint : PermissionSet → List LintFinding
unfolding lint_roots
lint p = lint_roots p.readable_roots
