-- ===== src/Capability/Permissions.antt =====
-- `PermissionSet` of capability/src/lib.rs: what it allows, and what it contains.
use attenuate_agent.Prelude.{
  Bool, false, List, Text, text_eq, Result, ok, err, panic, ◌>>=◌, all, if◌then◌else◌,
}
use attenuate_agent.External.{FileSystem}
use attenuate_agent.Manifest.{TaskManifest}
use attenuate_agent.Capability.Data.{PermissionSet, CapabilityError}
use attenuate_agent.Capability.Sets.{contains, collect_set}
use attenuate_agent.Capability.Resolve.{checked_path, checked_paths, is_under_any_root}

module _ (fs : FileSystem) where
  unfoldable pub from_manifest : TaskManifest → Result CapabilityError PermissionSet
  from_manifest m = do
    readable ← checked_paths fs m.filesystem.readable_roots
    writable ← checked_paths fs m.filesystem.writable_roots
    ok (record {
      readable_roots = readable;
      writable_roots = writable;
      exec_binaries = collect_set text_eq m.exec.allowed_binaries;
      network = m.network;
    })

  -- `checked_path(path).map(|path| is_under_any_root(&path, roots)).unwrap_or(false)`
  unfoldable pub under_roots : List Text → Text → Bool
  under_roots roots path = elim (checked_path fs path) [
    | ok q ↦ is_under_any_root q roots
    | err e ↦ false
    | panic ↦ false
  ]

  unfoldable pub allows_read : PermissionSet → Text → Bool
  unfolding under_roots
  allows_read p path = under_roots p.readable_roots path

  unfoldable pub allows_write : PermissionSet → Text → Bool
  unfolding under_roots
  allows_write p path = under_roots p.writable_roots path

  unfoldable pub contains_all_roots : PermissionSet → List Text → Bool → Bool
  unfolding under_roots all
  contains_all_roots p requested writable =
      let parent_roots = if writable then p.writable_roots else p.readable_roots in
      all (under_roots parent_roots) requested

unfoldable pub allows_exec : PermissionSet → Text → Bool
unfolding contains text_eq
allows_exec p binary = contains text_eq p.exec_binaries binary

unfoldable pub contains_all_exec : PermissionSet → List Text → Bool
unfolding contains text_eq all
contains_all_exec p requested = all (contains text_eq p.exec_binaries) requested
