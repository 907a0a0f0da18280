-- ===== src/Capability/Narrowing.antt =====
-- Attenuation only narrows: the theorems about `validate_attenuation` and both `attenuate` methods.
use attenuate_agent.Prelude.{
  ◌≤◌, Bool, true, false, List, [], ◌∷◌, Text, text_eq, ok, >>=-eq-ok, ok-injective, Result-cases,
  ◌∙◌, subst, sym, ◌≡◌, refl, ◌⊎◌, inl, inr, all, In, any→In, In→any, all→In, Bool-cases, arith,
  text_eq→eq,
}
use attenuate_agent.FilePath.{path_eq, starts_with}
use attenuate_agent.FilePath.Components.{starts_with_trans}
use attenuate_agent.External.{DateTime, FileSystem, Chrono}
use attenuate_agent.Capability.Data.{PermissionSet, AttenuationRequest}
use attenuate_agent.Capability.Sets.{contains, insert}
use attenuate_agent.Capability.Resolve.{checked_path, checked_paths, is_under_any_root}
use attenuate_agent.Capability.Permissions.{
  under_roots, allows_read, allows_write, allows_exec, contains_all_roots, contains_all_exec,
}
use attenuate_agent.Capability.Lifetime.{checked_expires_at, validate_attenuation}
use attenuate_agent.Capability.Token.{requested_permissions}

pub In-insert :
    {A : Type 0} (eq : A → A → Bool) (a x : A) (xs : List A)
    → In x (insert eq a xs)
    → (x ≡ a) ⊎ In x xs
unfolding insert
In-insert eq a x xs i = elim (Bool-cases (contains eq xs a)) [
  | inl e ↦ let j : In x xs = rw e at i in inr j
  | inr e ↦ let j : In x (a ∷ xs) = rw e at i in j
]

-- Every path of a checked set is the resolution of one that was given.
pub checked_paths-In :
    (fs : FileSystem) (paths : List Text) {qs : List Text} {q : Text}
    → checked_paths fs paths ≡ ok qs
    → In q qs
    → (p : Text) × In p paths × (checked_path fs p ≡ ok q)
unfolding checked_paths
checked_paths-In fs [] {qs} {q} h i = elim (subst (λ l. In q l) (sym (ok-injective h)) i) [ ]
checked_paths-In fs (path ∷ paths) {qs} {q} h i =
    let (r, e, h') = >>=-eq-ok (checked_path fs path) _ h in
    let (rs, e', h'') = >>=-eq-ok (checked_paths fs paths) _ h' in
    elim (In-insert path_eq r q rs (subst (λ l. In q l) (sym (ok-injective h'')) i)) [
      | inl same ↦ (path, inl refl, subst (λ t. checked_path fs path ≡ ok t) (sym same) e)
      | inr j ↦ let (p, k, c) = checked_paths-In fs paths e' j in (p, inr k, c)
    ]

pub under_roots-ok :
    (fs : FileSystem) (roots : List Text) (path : Text) {q : Text}
    → checked_path fs path ≡ ok q
    → under_roots fs roots path ≡ is_under_any_root q roots
unfolding under_roots
under_roots-ok fs roots path e = rw (e, under_roots)

-- A path under a set of roots is under every set that contains them.
pub is_under_any_root_mono :
    (path : Text) (roots parents : List Text)
    → ((root : Text) → In root roots → is_under_any_root root parents ≡ true)
    → is_under_any_root path roots ≡ true
    → is_under_any_root path parents ≡ true
unfolding is_under_any_root
is_under_any_root_mono path roots parents h u =
    let (root, i, s) = any→In (λ r. starts_with path r) roots u in
    let (parent, j, t) = any→In (λ r. starts_with root r) parents (h root i) in
    In→any (λ r. starts_with path r) parents parent j (starts_with_trans path root parent s t)

pub under_roots-true :
    (fs : FileSystem) (roots : List Text) (path : Text)
    → under_roots fs roots path ≡ true
    → (q : Text) × (checked_path fs path ≡ ok q) × (is_under_any_root q roots ≡ true)
unfolding under_roots
under_roots-true fs roots path h = elim (Result-cases (checked_path fs path)) [
  | inl (q, e) ↦ (q, e, sym (under_roots-ok fs roots path e) ∙ h)
  | inr (inl (x, e)) ↦ absurd (ground (arith))
  | inr (inr e) ↦ absurd (ground (arith))
]

-- A set of roots that is checked against a parent's allows only paths that the parent allows, at
-- whatever state of the file system the path is resolved.
pub under_roots_mono :
    (fs now : FileSystem) (requested parents : List Text) {roots : List Text} (path : Text)
    → all (under_roots fs parents) requested ≡ true
    → checked_paths fs requested ≡ ok roots
    → under_roots now roots path ≡ true
    → under_roots now parents path ≡ true
under_roots_mono fs now requested parents {roots} path inside e h =
    let (q, c, u) = under_roots-true now roots path h in
    under_roots-ok now parents path c
    ∙ is_under_any_root_mono q roots parents
        (λ root i.
          let (p, j, r) = checked_paths-In fs requested e i in
          sym (under_roots-ok fs parents p r)
          ∙ all→In (under_roots fs parents) requested p inside j)
        u

-- Every right of the first permission set is a right of the second, at any state of the files.
pub record Narrows (p q : PermissionSet) : Type 0 where
  pub read :
      (now : FileSystem) (path : Text)
      → allows_read now p path ≡ true
      → allows_read now q path ≡ true
  pub write :
      (now : FileSystem) (path : Text)
      → allows_write now p path ≡ true
      → allows_write now q path ≡ true
  pub exec : (binary : Text) → allows_exec p binary ≡ true → allows_exec q binary ≡ true

pub Narrows-refl : (p : PermissionSet) → Narrows p p
Narrows-refl p = record { read = λ now path h. h; write = λ now path h. h; exec = λ b h. h }

pub Narrows-trans : (p q r : PermissionSet) → Narrows p q → Narrows q r → Narrows p r
Narrows-trans p q r a b = record {
  read = λ now path h. b.read now path (a.read now path h);
  write = λ now path h. b.write now path (a.write now path h);
  exec = λ binary h. b.exec binary (a.exec binary h);
}

-- The tests that an accepted request has passed.
pub record Passed (fs : FileSystem) (ch : Chrono) (parent : PermissionSet) (limit : DateTime)
    (request : AttenuationRequest) (now : DateTime) : Type 0 where
  pub read : contains_all_roots fs parent request.readable_roots false ≡ true
  pub write : contains_all_roots fs parent request.writable_roots true ≡ true
  pub exec : contains_all_exec parent request.exec_binaries ≡ true
  pub expires_at : DateTime
  pub lifetime : checked_expires_at ch now request.ttl_seconds ≡ ok expires_at
  pub bounded : expires_at ≤ limit

pub validate_attenuation-Passed :
    (fs : FileSystem) (ch : Chrono) (parent : PermissionSet) (limit : DateTime)
    (request : AttenuationRequest) (now : DateTime)
    → validate_attenuation fs ch parent limit request now ≡ ok tt
    → Passed fs ch parent limit request now
unfolding validate_attenuation
validate_attenuation-Passed fs ch parent limit request now h =
    elim (Bool-cases (contains_all_roots fs parent request.readable_roots false)) [
      | inr e ↦ absurd (ground arith)
      | inl r ↦ elim (Bool-cases (contains_all_roots fs parent request.writable_roots true)) [
        | inr e ↦ absurd (ground arith)
        | inl w ↦ elim (Bool-cases (contains_all_exec parent request.exec_binaries)) [
          | inr e ↦ absurd (ground arith)
          | inl x ↦ elim (Result-cases (checked_expires_at ch now request.ttl_seconds)) [
            | inl (t, e) ↦ record {
              read = r;
              write = w;
              exec = x;
              expires_at = t;
              lifetime = e;
              bounded = ground arith;
            }
            | inr (inl (x, e)) ↦ absurd (ground arith)
            | inr (inr e) ↦ absurd (ground arith)
          ]
        ]
      ]
    ]

module _ (fs : FileSystem) where
  requested_permissions-parts :
      (request : AttenuationRequest) {p : PermissionSet}
      → requested_permissions fs request ≡ ok p
      → (checked_paths fs request.readable_roots ≡ ok p.readable_roots)
        × (checked_paths fs request.writable_roots ≡ ok p.writable_roots)
        × (p.exec_binaries ≡ request.exec_binaries)
        × (p.network ≡ request.network)
  unfolding requested_permissions
  requested_permissions-parts request {p} h =
      let (rs, e, h') = >>=-eq-ok (checked_paths fs request.readable_roots) _ h in
      let (ws, e', h'') = >>=-eq-ok (checked_paths fs request.writable_roots) _ h' in
      (ground arith, ground arith, ground arith, ground arith)

  exec-narrows :
      (parent p : PermissionSet) (request : AttenuationRequest) (binary : Text)
      → contains_all_exec parent request.exec_binaries ≡ true
      → p.exec_binaries ≡ request.exec_binaries
      → allows_exec p binary ≡ true
      → allows_exec parent binary ≡ true
  unfolding allows_exec contains_all_exec
  exec-narrows parent p request binary inside same h =
      let (b, i, e) = any→In (text_eq binary) p.exec_binaries h in
      let j : In b request.exec_binaries = subst (λ l. In b l) same i in
      let k = all→In (contains text_eq parent.exec_binaries) request.exec_binaries b inside j in
      subst (λ t. contains text_eq parent.exec_binaries t ≡ true) (sym (text_eq→eq binary b e)) k

  -- Permissions built from a request that has passed the tests narrow the parent's.
  pub requested_permissions-Narrows :
      (ch : Chrono) (parent p : PermissionSet) (limit : DateTime) (request : AttenuationRequest)
      (now : DateTime)
      → Passed fs ch parent limit request now
      → requested_permissions fs request ≡ ok p
      → Narrows p parent
  unfolding allows_read allows_write contains_all_roots
  requested_permissions-Narrows ch parent p limit request now passed built =
      let (r, w, x, n) = requested_permissions-parts request built in
      record {
        read = λ at path h.
            under_roots_mono fs at request.readable_roots parent.readable_roots path passed.read r
              h;
        write = λ at path h.
            under_roots_mono fs at request.writable_roots parent.writable_roots path passed.write w
              h;
        exec = λ binary h. exec-narrows parent p request binary passed.exec x h;
      }
