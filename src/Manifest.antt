-- ===== src/Manifest.antt =====
-- manifest/src/lib.rs: the trusted task manifest and its validation.
pub mod Validation
use attenuate_agent.Prelude.{
  ℕ, Bool, not, ◌||◌, true, false, List, [], ◌∷◌, Text, Result, ok, err, ◌>>=◌, ◌>>◌, any, ◌==◌,
  if◌then◌else◌,
}
use attenuate_agent.FilePath.{
  Component, root_dir, cur_dir, parent_dir, normal, components, is_absolute, path_eq,
}
use attenuate_agent.External.{Uuid}

pub record FilesystemPolicy : Type 0 where
  pub readable_roots : List Text
  pub writable_roots : List Text

pub record ExecPolicy : Type 0 where
  pub allowed_binaries : List Text

pub data NetworkPolicy : Type 0 where
  deny_all : NetworkPolicy

pub record TaskManifest : Type 0 where
  pub task_id : Uuid
  pub repo_root : Text
  pub ttl_seconds : ℕ
  pub filesystem : FilesystemPolicy
  pub exec : ExecPolicy
  pub network : NetworkPolicy

pub data ManifestError : Type 0 where
  empty_ttl : ManifestError
  unsafe_path : Text → ManifestError
  repo_root_not_readable : ManifestError

-- `matches!(component, Component::CurDir | Component::ParentDir)`
unfoldable pub is_dot : Component → Bool
is_dot cur_dir = true
is_dot parent_dir = true
is_dot _ = false

unfoldable pub validate_safe_absolute_path : Text → Result ManifestError (Unit {0})
validate_safe_absolute_path path =
    if not (is_absolute path) || any is_dot (components path) then err (unsafe_path path) else ok tt

-- `for root in roots { validate_safe_absolute_path(root)?; }`
unfoldable pub validate_roots : List Text → Result ManifestError (Unit {0})
validate_roots [] = ok tt
validate_roots (root ∷ roots) = do validate_safe_absolute_path root; validate_roots roots

unfoldable pub validate : TaskManifest → Result ManifestError (Unit {0})
validate m = if m.ttl_seconds == 0 then err empty_ttl else do
  validate_safe_absolute_path m.repo_root
  validate_roots m.filesystem.readable_roots
  validate_roots m.filesystem.writable_roots
  if not (any (λ root. path_eq root m.repo_root) m.filesystem.readable_roots)
      then err repo_root_not_readable
      else ok tt
