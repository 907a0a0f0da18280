-- ===== src/Capability/Resolve.antt =====
-- `checked_path`, `checked_paths`, `resolve_existing_ancestor` and `is_under_any_root` of
-- capability/src/lib.rs.
use attenuate_agent.Prelude.{
  Bool, none, some, List, [], ◌∷◌, Text, Result, ok, err, ◌>>=◌, any, not, ◌||◌, reverse,
  if◌then◌else◌,
}
use attenuate_agent.FilePath.{
  Component, root_dir, cur_dir, parent_dir, normal, components, is_absolute, path_eq, starts_with,
  collect, push,
}
use attenuate_agent.External.{FileSystem}
use attenuate_agent.Manifest.{is_dot}
use attenuate_agent.Capability.Data.{CapabilityError, unsafe_path}
use attenuate_agent.Capability.Sets.{insert}

module _ (fs : FileSystem) where
  -- `cursor.canonicalize().unwrap_or_else(|_| cursor.components().collect())`
  unfoldable pub canonical_cursor : Text → Text
  canonical_cursor cursor = elim (fs.canonicalize cursor) [
    | some resolved ↦ resolved
    | none ↦ collect (components cursor)
  ]

  -- `for component in suffix.iter().rev() { resolved.push(component) }`
  unfoldable pub push_suffix : Text → List Text → Text
  push_suffix resolved [] = resolved
  push_suffix resolved (name ∷ names) = push_suffix (push resolved name) names

  -- The loop. `cursor` has the components `rev`, the last one first, so that `parent()` is the rest;
  -- `suffix` holds the names taken off so far, outermost first.
  unfoldable pub resolve_loop : Text → Text → List Component → List Text → Text
  unfolding canonical_cursor push_suffix
  resolve_loop path cursor [] suffix =
      if fs.exists cursor
      then push_suffix (canonical_cursor cursor) suffix
      else collect (components path)
  resolve_loop path cursor (root_dir ∷ rev) suffix =
      if fs.exists cursor
      then push_suffix (canonical_cursor cursor) suffix
      else collect (components path)
  resolve_loop path cursor (normal name ∷ rev) suffix =
      let rest = resolve_loop path (collect (reverse rev)) rev (name ∷ suffix) in
      if fs.exists cursor then push_suffix (canonical_cursor cursor) suffix else rest
  resolve_loop path cursor (cur_dir ∷ rev) suffix =
      let rest = resolve_loop path (collect (reverse rev)) rev suffix in
      if fs.exists cursor then push_suffix (canonical_cursor cursor) suffix else rest
  resolve_loop path cursor (parent_dir ∷ rev) suffix =
      let rest = resolve_loop path (collect (reverse rev)) rev suffix in
      if fs.exists cursor then push_suffix (canonical_cursor cursor) suffix else rest

  unfoldable pub resolve_existing_ancestor : Text → Text
  unfolding resolve_loop
  resolve_existing_ancestor path = resolve_loop path path (reverse (components path)) []

  unfoldable pub checked_path : Text → Result CapabilityError Text
  checked_path path =
      if not (is_absolute path) || any is_dot (components path)
      then err (unsafe_path path)
      else ok (resolve_existing_ancestor path)

  unfoldable pub checked_paths : List Text → Result CapabilityError (List Text)
  checked_paths [] = ok []
  checked_paths (path ∷ paths) = do
    q ← checked_path path
    qs ← checked_paths paths
    ok (insert path_eq q qs)

unfoldable pub is_under_any_root : Text → List Text → Bool
unfolding any
is_under_any_root path roots = any (λ root. starts_with path root) roots
