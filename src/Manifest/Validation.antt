-- ===== src/Manifest/Validation.antt =====
-- What a manifest that passes `validate` guarantees (manifest/src/lib.rs).
use attenuate_agent.Prelude.{
  ◌<◌, Bool, true, false, ◌||◌, List, [], ◌∷◌, ◌++◌, Text, ok, >>=-eq-ok, ◌≡◌, refl, ◌↔◌, inl, inr,
  arith, any, Bool-cases, ◌==◌,
}
use attenuate_agent.FilePath.{
  Component, root_dir, cur_dir, parent_dir, normal, components, all_components, segment_components,
  segments, is_absolute, path_eq,
}
use attenuate_agent.Manifest.{
  TaskManifest, is_dot, validate_safe_absolute_path, validate_roots, validate,
}

-- An absolute path with no `.` or `..` component.
abbrev pub IsSafe : Text → Type 0
IsSafe path = (is_absolute path ≡ true) × (any is_dot (components path) ≡ false)

abbrev pub AllSafe : List Text → Type 0
AllSafe [] = Unit
AllSafe (p ∷ ps) = IsSafe p × AllSafe ps

pub validate_safe_absolute_path_iff :
    (path : Text) → (validate_safe_absolute_path path ≡ ok tt) ↔ IsSafe path
unfolding validate_safe_absolute_path
validate_safe_absolute_path_iff path = ground arith

validate_roots_iff : (roots : List Text) → (validate_roots roots ≡ ok tt) ↔ AllSafe roots
unfolding validate_roots
validate_roots_iff [] = (λ h. tt, λ h. refl)
validate_roots_iff (p ∷ ps) = (
  λ h.
      let (u, e, h') = >>=-eq-ok (validate_safe_absolute_path p) _ h in
      ((validate_safe_absolute_path_iff p).0 e, (validate_roots_iff ps).0 h'),
  λ h. rw ((validate_safe_absolute_path_iff p).1 h.0) ((validate_roots_iff ps).1 h.1),
)

-- What an accepted manifest has.
pub record IsValid (m : TaskManifest) : Type 0 where
  pub lives : 0 < m.ttl_seconds
  pub repo : IsSafe m.repo_root
  pub readable : AllSafe m.filesystem.readable_roots
  pub writable : AllSafe m.filesystem.writable_roots
  pub listed : any (λ root. path_eq root m.repo_root) m.filesystem.readable_roots ≡ true

validate→IsValid : (m : TaskManifest) → validate m ≡ ok tt → IsValid m
unfolding validate
validate→IsValid m h = elim (Bool-cases (m.ttl_seconds == 0)) [
  | inl e ↦ absurd (ground arith)
  | inr e ↦
      let (u, a, h₁) = >>=-eq-ok (validate_safe_absolute_path m.repo_root) _ (rw e at h) in
      let (u₂, b, h₂) = >>=-eq-ok (validate_roots m.filesystem.readable_roots) _ h₁ in
      let (u₃, c, h₃) = >>=-eq-ok (validate_roots m.filesystem.writable_roots) _ h₂ in
      record {
        lives = ground arith;
        repo = (validate_safe_absolute_path_iff m.repo_root).0 a;
        readable = (validate_roots_iff m.filesystem.readable_roots).0 b;
        writable = (validate_roots_iff m.filesystem.writable_roots).0 c;
        listed = ground arith;
      }
]

IsValid→validate : (m : TaskManifest) → IsValid m → validate m ≡ ok tt
unfolding validate
IsValid→validate m v =
    let e : (m.ttl_seconds == 0) ≡ false = ground arith in
    rw (
      e,
      (validate_safe_absolute_path_iff m.repo_root).1 v.repo,
      (validate_roots_iff m.filesystem.readable_roots).1 v.readable,
      (validate_roots_iff m.filesystem.writable_roots).1 v.writable,
      v.listed,
    )

-- `validate` accepts a manifest exactly when its TTL is not zero, the repository root and all
-- readable and writable roots are absolute with no `.` or `..` component, and a readable root is the
-- repository root.
pub validate_iff : (m : TaskManifest) → (validate m ≡ ok tt) ↔ IsValid m
validate_iff m = (validate→IsValid m, IsValid→validate m)

abbrev is_cur_dir : Component → Bool
is_cur_dir cur_dir = true
is_cur_dir _ = false

any-append :
    (p : Component → Bool) (xs ys : List Component) → any p (xs ++ ys) ≡ (any p xs || any p ys)
unfolding any
any-append p [] ys = refl
any-append p (x ∷ xs) ys = ground (arith, any-append p xs ys)

segment-cur_dir : (seg : Text) → any is_cur_dir (segment_components seg) ≡ false
unfolding any segment_components
segment-cur_dir [] = refl
segment-cur_dir (c ∷ s) = ground arith

all_components-cur_dir : (segs : List Text) → any is_cur_dir (all_components segs) ≡ false
unfolding any all_components
all_components-cur_dir [] = refl
all_components-cur_dir (seg ∷ segs) =
    rw any-append (ground (arith, segment-cur_dir seg, all_components-cur_dir segs))

-- An absolute path has no `.` component, whatever its text: `components` skips such segments.
components-cur_dir :
    (path : Text) → is_absolute path ≡ true → any is_cur_dir (components path) ≡ false
unfolding components any
components-cur_dir path h = rw h (all_components-cur_dir (segments [] path))

abbrev pub is_parent_dir : Component → Bool
is_parent_dir parent_dir = true
is_parent_dir _ = false

any-is_dot : (cs : List Component) → any is_dot cs ≡ (any is_cur_dir cs || any is_parent_dir cs)
unfolding any is_dot
any-is_dot [] = refl
any-is_dot (root_dir ∷ cs) = any-is_dot cs
any-is_dot (cur_dir ∷ cs) = refl
any-is_dot (parent_dir ∷ cs) = ground arith
any-is_dot (normal name ∷ cs) = any-is_dot cs

-- A path passes the safety test exactly when it is absolute and has no `..` component: its `.`
-- segments, which `components` skips, are not rejected.
pub validate_safe_absolute_path-parent_dir :
    (path : Text)
    → (validate_safe_absolute_path path ≡ ok tt)
      ↔ ((is_absolute path ≡ true) × (any is_parent_dir (components path) ≡ false))
unfolding validate_safe_absolute_path
validate_safe_absolute_path-parent_dir path = elim (Bool-cases (is_absolute path)) [
  | inl a ↦
      let d = any-is_dot (components path) in
      let c = components-cur_dir path a in (λ h. (a, ground arith), λ (b, e). ground arith)
  | inr a ↦ (λ h. absurd (ground arith), λ (b, e). absurd (ground arith))
]
