-- ===== src/Capability/Issuance.antt =====
-- When `RootCapability::attenuate` of capability/src/lib.rs hands out a child with the root's own scope.
use attenuate_agent.Prelude.{
  ℕ, ◌≤◌, true, false, some, List, [], ◌∷◌, In, In→any, In→all, Text, text_eq, text_eq_refl, ok,
  all, ◌≡◌, refl, sym, ◌∙◌, subst, inl, inr, arith,
}
use attenuate_agent.Prelude.Int.{pos}
use attenuate_agent.FilePath.{path_eq, starts_with}
use attenuate_agent.FilePath.Components.{starts_with_refl}
use attenuate_agent.External.{DateTime, FileSystem, Chrono, UuidText, BiscuitAuth}
use attenuate_agent.Capability.Data.{
  PermissionSet, RequestBinding, AttenuationRequest, RootCapability, ChildCapability,
}
use attenuate_agent.Capability.Sets.{contains, insert}
use attenuate_agent.Capability.Resolve.{checked_path, checked_paths, is_under_any_root}
use attenuate_agent.Capability.Permissions.{under_roots, contains_all_roots, contains_all_exec}
use attenuate_agent.Capability.Lifetime.{checked_expires_at, validate_attenuation}
use attenuate_agent.Capability.Codec.{append_block}
use attenuate_agent.Capability.Token.{parse_public_key, requested_permissions, attenuate_root}
use attenuate_agent.Capability.Narrowing.{under_roots-ok}

-- Every root of the set resolves to itself, and no two are equal as paths.
abbrev pub IsResolved : FileSystem → List Text → Type 0
IsResolved fs [] = Unit
IsResolved fs (r ∷ rs) =
    (checked_path fs r ≡ ok r) × (contains path_eq rs r ≡ false) × IsResolved fs rs

checked_paths-IsResolved :
    (fs : FileSystem) (rs : List Text) → IsResolved fs rs → checked_paths fs rs ≡ ok rs
unfolding checked_paths insert
checked_paths-IsResolved fs [] h = refl
checked_paths-IsResolved fs (r ∷ rs) (c, d, h) = rw (c, checked_paths-IsResolved fs rs h, d) refl

IsResolved-In :
    (fs : FileSystem) (rs : List Text) (r : Text)
    → IsResolved fs rs
    → In r rs
    → checked_path fs r ≡ ok r
IsResolved-In fs [] r h i = elim i [ ]
IsResolved-In fs (q ∷ rs) r (c, d, h) (inl e) = subst (λ t. checked_path fs t ≡ ok t) (sym e) c
IsResolved-In fs (q ∷ rs) r (c, d, h) (inr i) = IsResolved-In fs rs r h i

within_itself :
    (fs : FileSystem) (rs : List Text) → IsResolved fs rs → all (under_roots fs rs) rs ≡ true
unfolding is_under_any_root
within_itself fs rs h = In→all (under_roots fs rs) rs (λ r i.
    under_roots-ok fs rs r (IsResolved-In fs rs r h i)
    ∙ In→any (λ root. starts_with r root) rs r i (starts_with_refl r))

contains_all_exec_refl : (p : PermissionSet) → contains_all_exec p p.exec_binaries ≡ true
unfolding contains_all_exec contains
contains_all_exec_refl p =
    In→all (contains text_eq p.exec_binaries) p.exec_binaries
      (λ b i. In→any (text_eq b) p.exec_binaries b i (text_eq_refl b))

-- The request for the scope of the root, bound to a call.
abbrev pub scope_request : RootCapability → ℕ → RequestBinding → AttenuationRequest
scope_request root ttl_seconds b = record {
  readable_roots = root.permissions.readable_roots;
  writable_roots = root.permissions.writable_roots;
  exec_binaries = root.permissions.exec_binaries;
  network = root.permissions.network;
  ttl_seconds = ttl_seconds;
  request_binding = some b;
}

-- The child that the request asks for.
abbrev pub issued : RootCapability → RequestBinding → DateTime → Text → ChildCapability
issued root b t token = record {
  task_id = root.task_id;
  permissions = root.permissions;
  expires_at = t;
  caveats =
      record { permissions = root.permissions; expires_at = t; request_binding = some b } ∷ [];
  token = token;
  root_public_key = root.root_public_key;
}

module _ (fs : FileSystem) (ch : Chrono) (ids : UuidText) (bis : BiscuitAuth)
    (root : RootCapability) (readable : IsResolved fs root.permissions.readable_roots)
    (writable : IsResolved fs root.permissions.writable_roots) (ttl_seconds : ℕ)
    (b : RequestBinding) (now t : DateTime)
    (lifetime : checked_expires_at ch now ttl_seconds ≡ ok t) where
  validate_attenuation-scope_request :
      t ≤ root.expires_at
      → validate_attenuation fs ch root.permissions root.expires_at
          (scope_request root ttl_seconds b)
          now
        ≡ ok tt
  unfolding validate_attenuation contains_all_roots
  validate_attenuation-scope_request h =
      let r = within_itself fs root.permissions.readable_roots readable in
      let w = within_itself fs root.permissions.writable_roots writable in
      let x = contains_all_exec_refl root.permissions in rw (r, w, x, lifetime) (ground arith)

  requested_permissions-scope_request :
      requested_permissions fs (scope_request root ttl_seconds b) ≡ ok root.permissions
  unfolding requested_permissions
  requested_permissions-scope_request =
      rw
        (
          checked_paths-IsResolved fs root.permissions.readable_roots readable,
          checked_paths-IsResolved fs root.permissions.writable_roots writable,
        )
        refl

  -- A root whose paths resolve to themselves hands out a child with its own scope, if the child does
  -- not outlive it and its token takes another block.
  pub attenuate_root-issued :
      (key : bis.PublicKey) (token : Text)
      → t ≤ root.expires_at
      → parse_public_key bis root.root_public_key ≡ ok key
      → append_block bis ch ids root.token key (pos 1) root.permissions t (some b) ≡ ok token
      → attenuate_root fs ch ids bis root (scope_request root ttl_seconds b) now
        ≡ ok (issued root b t token)
  unfolding attenuate_root
  attenuate_root-issued key token h k a =
      rw (validate_attenuation-scope_request h, lifetime, requested_permissions-scope_request, k, a)
        refl
