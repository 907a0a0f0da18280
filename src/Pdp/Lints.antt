-- ===== src/Pdp/Lints.antt =====
-- What the linter of pdp/src/linter.rs finds, and why it matters.
use attenuate_agent.Prelude.{
  true, ok, List, [], ◌∷◌, Text, ◌≡◌, sym, subst, ◌∙◌, ap, ◌↔◌, inl, inr, In, In→any, Bool-cases,
}
use attenuate_agent.FilePath.{is_absolute, path_eq, starts_with}
use attenuate_agent.FilePath.Components.{path_eq→starts_with, starts_with_trans, path_eq_symm}
use attenuate_agent.Capability.Data.{PermissionSet}
use attenuate_agent.External.{FileSystem}
use attenuate_agent.Capability.Permissions.{allows_read}
use attenuate_agent.Capability.Narrowing.{under_roots-ok}
use attenuate_agent.Capability.Resolve.{checked_path, is_under_any_root}
use attenuate_agent.Pdp.Linter.{always_allow_read, lint_roots, lint}

lint_roots→In :
    (roots : List Text) (r : Text)
    → In (always_allow_read r) (lint_roots roots)
    → In r roots × (path_eq r (b'/' ∷ []) ≡ true)
unfolding lint_roots
lint_roots→In [] r i = elim i [ ]
lint_roots→In (p ∷ ps) r i = elim (Bool-cases (path_eq p (b'/' ∷ []))) [
  | inl e ↦
      let j : In (always_allow_read r) (always_allow_read p ∷ lint_roots ps) = rw e at i in
      elim j [
        | inl same ↦
            let q : r ≡ p = cc in (inl q, subst (λ t. path_eq t (b'/' ∷ []) ≡ true) (sym q) e)
        | inr k ↦ let (m, f) = lint_roots→In ps r k in (inr m, f)
      ]
  | inr e ↦
      let j : In (always_allow_read r) (lint_roots ps) = rw e at i in
      let (m, f) = lint_roots→In ps r j in (inr m, f)
]

In→lint_roots :
    (roots : List Text) (r : Text)
    → In r roots
    → path_eq r (b'/' ∷ []) ≡ true
    → In (always_allow_read r) (lint_roots roots)
unfolding lint_roots
In→lint_roots [] r i e = elim i [ ]
In→lint_roots (p ∷ ps) r (inl same) e =
    let q : path_eq p (b'/' ∷ []) ≡ true = subst (λ t. path_eq t (b'/' ∷ []) ≡ true) same e in
    rw q (inl (ap always_allow_read same))
In→lint_roots (p ∷ ps) r (inr i) e = elim (Bool-cases (path_eq p (b'/' ∷ []))) [
  | inl q ↦ rw q (inr (In→lint_roots ps r i e))
  | inr q ↦ rw q (In→lint_roots ps r i e)
]

-- The linter reports exactly the readable roots that are the root directory.
pub lint_iff :
    (p : PermissionSet) (r : Text)
    → In (always_allow_read r) (lint p) ↔ (In r p.readable_roots × (path_eq r (b'/' ∷ []) ≡ true))
unfolding lint
lint_iff p r = (lint_roots→In p.readable_roots r, λ (i, e). In→lint_roots p.readable_roots r i e)

absolute-starts_with : (q : Text) → is_absolute q ≡ true → starts_with q (b'/' ∷ []) ≡ true
unfolding starts_with
absolute-starts_with q h = rw h

-- If the linter reports a permission set, the set allows every read whose path resolves to an
-- absolute path: the finding's name is right.
pub lint-always_allow :
    (fs : FileSystem) (p : PermissionSet) (r path : Text) {q : Text}
    → In (always_allow_read r) (lint p)
    → checked_path fs path ≡ ok q
    → is_absolute q ≡ true
    → allows_read fs p path ≡ true
unfolding allows_read is_under_any_root
lint-always_allow fs p r path {q} found resolved absolute =
    let (i, e) = (lint_iff p r).0 found in
    let s =
      starts_with_trans q (b'/' ∷ []) r (absolute-starts_with q absolute)
        (path_eq→starts_with (b'/' ∷ []) r (path_eq_symm r (b'/' ∷ []) e)) in
    under_roots-ok fs p.readable_roots path resolved
    ∙ In→any (λ root. starts_with q root) p.readable_roots r i s
