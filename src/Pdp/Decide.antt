-- ===== src/Pdp/Decide.antt =====
-- What a decision of pdp/src/lib.rs means, and that narrower permissions allow less.
use attenuate_agent.Prelude.{
  Bool, true, false, if◌then◌else◌, refl, text, List, Text, text_eq, text_eq→eq, text_eq_refl, ok,
  any, In, any→In, In→any, ◌≡◌, sym, ◌∙◌, subst, arith, ◌↔◌,
}
use attenuate_agent.FilePath.{components, is_absolute, starts_with}
use attenuate_agent.Manifest.{is_dot}
use attenuate_agent.Capability.Sets.{contains}
use attenuate_agent.Capability.Resolve.{checked_path, is_under_any_root, resolve_existing_ancestor}
use attenuate_agent.External.{FileSystem}
use attenuate_agent.Capability.Data.{PermissionSet}
use attenuate_agent.Capability.Permissions.{under_roots, allows_read, allows_write, allows_exec}
use attenuate_agent.Manifest.{NetworkPolicy, deny_all}
use attenuate_agent.Capability.Token.{permissions_eq}
use attenuate_agent.Capability.Mirror.{permissions_eq-Narrows, permissions_eq_symm}
use attenuate_agent.Capability.Narrowing.{Narrows, under_roots-ok, under_roots-true}
use attenuate_agent.Pdp.{ToolRequest, read, write, exec, network, allow, deny, decide}

-- A request is allowed by the test of its kind; no permission set allows egress.
abbrev Allowed : FileSystem → PermissionSet → ToolRequest → Type 0
Allowed fs p (read path) = allows_read fs p path ≡ true
Allowed fs p (write path) = allows_write fs p path ≡ true
Allowed fs p (exec binary) = allows_exec p binary ≡ true
Allowed fs p network = ⊥

decide-Allowed :
    (fs : FileSystem) (p : PermissionSet) (request : ToolRequest)
    → (decide fs p request ≡ allow) ↔ Allowed fs p request
unfolding decide
decide-Allowed fs p (read path) = ground arith
decide-Allowed fs p (write path) = ground arith
decide-Allowed fs p (exec binary) = ground arith
decide-Allowed fs p network = ground arith

-- A path is absolute, has no `.` or `..` component, and resolves to a path that begins with one of the roots.
pub record UnderRoot (fs : FileSystem) (roots : List Text) (path : Text) : Type 0 where
  pub absolute : is_absolute path ≡ true
  pub no_dots : any is_dot (components path) ≡ false
  pub root : Text
  pub listed : In root roots
  pub below : starts_with (resolve_existing_ancestor fs path) root ≡ true

under_roots→UnderRoot :
    (fs : FileSystem) (roots : List Text) (path : Text)
    → under_roots fs roots path ≡ true
    → UnderRoot fs roots path
unfolding checked_path is_under_any_root
under_roots→UnderRoot fs roots path h =
    let (q, e, u) = under_roots-true fs roots path h in
    let same : q ≡ resolve_existing_ancestor fs path = ground arith in
    let (root, i, s) = any→In (λ root. starts_with q root) roots u in
    record {
      absolute = ground arith;
      no_dots = ground arith;
      root = root;
      listed = i;
      below = subst (λ t. starts_with t root ≡ true) same s;
    }

UnderRoot→under_roots :
    (fs : FileSystem) (roots : List Text) (path : Text)
    → UnderRoot fs roots path
    → under_roots fs roots path ≡ true
unfolding checked_path is_under_any_root
UnderRoot→under_roots fs roots path u =
    let a = u.absolute in
    let d = u.no_dots in
    let e : checked_path fs path ≡ ok (resolve_existing_ancestor fs path) = rw (a, d) in
    under_roots-ok fs roots path e
    ∙ In→any (λ root. starts_with (resolve_existing_ancestor fs path) root) roots u.root u.listed
        u.below

-- A request is within a permission set: its path is under one of the roots of its kind, or its binary
-- is listed; egress never is.
abbrev pub Within : FileSystem → PermissionSet → ToolRequest → Type 0
Within fs p (read path) = UnderRoot fs p.readable_roots path
Within fs p (write path) = UnderRoot fs p.writable_roots path
Within fs p (exec binary) = In binary p.exec_binaries
Within fs p network = ⊥

Allowed-Within :
    (fs : FileSystem) (p : PermissionSet) (request : ToolRequest)
    → Allowed fs p request ↔ Within fs p request
unfolding allows_read allows_write allows_exec contains
Allowed-Within fs p (read path) =
    (under_roots→UnderRoot fs p.readable_roots path, UnderRoot→under_roots fs p.readable_roots path)
Allowed-Within fs p (write path) =
    (under_roots→UnderRoot fs p.writable_roots path, UnderRoot→under_roots fs p.writable_roots path)
Allowed-Within fs p (exec binary) = (
  λ h.
      let (x, i, e) = any→In (text_eq binary) p.exec_binaries h in
      subst (λ t. In t p.exec_binaries) (sym (text_eq→eq binary x e)) i,
  λ i. In→any (text_eq binary) p.exec_binaries binary i (text_eq_refl binary),
)
Allowed-Within fs p network = (λ h. h, λ h. h)

-- The decision allows a read or a write exactly when its path is absolute, has no `.` or `..` component and
-- resolves to a path that begins with one of the readable or the writable roots, and an execution
-- exactly when its binary is listed; it never allows egress.
pub decide-allow_iff :
    (fs : FileSystem) (p : PermissionSet) (request : ToolRequest)
    → (decide fs p request ≡ allow) ↔ Within fs p request
decide-allow_iff fs p request =
    let d = decide-Allowed fs p request in
    let a = Allowed-Within fs p request in (λ h. a.0 (d.0 h), λ h. d.1 (a.1 h))

-- What narrower permissions allow, wider ones allow.
pub decide_mono :
    (fs : FileSystem) (p q : PermissionSet) (request : ToolRequest)
    → Narrows p q
    → decide fs p request ≡ allow
    → decide fs q request ≡ allow
decide_mono fs p q (read path) n h =
    (decide-Allowed fs q (read path)).1 (n.read fs path ((decide-Allowed fs p (read path)).0 h))
decide_mono fs p q (write path) n h =
    (decide-Allowed fs q (write path)).1 (n.write fs path ((decide-Allowed fs p (write path)).0 h))
decide_mono fs p q (exec binary) n h =
    (decide-Allowed fs q (exec binary)).1 (n.exec binary ((decide-Allowed fs p (exec binary)).0 h))
decide_mono fs p q network n h = absurd ((decide-Allowed fs p network).0 h)

by_test :
    (a b : Bool) (reason : Text)
    → ((if a then allow else deny reason) ≡ allow → (if b then allow else deny reason) ≡ allow)
    → ((if b then allow else deny reason) ≡ allow → (if a then allow else deny reason) ≡ allow)
    → (if a then allow else deny reason) ≡ (if b then allow else deny reason)
by_test true true reason f g = refl
by_test true false reason f g = sym (f refl)
by_test false true reason f g = g refl
by_test false false reason f g = refl

no_egress :
    (m n : NetworkPolicy)
    → (elim m [ deny_all ↦ deny (text "network policy denies all egress") ])
      ≡ (elim n [ deny_all ↦ deny (text "network policy denies all egress") ])
no_egress deny_all deny_all = refl

-- A denial's reason is that of the kind of the request.
decide-both :
    (fs : FileSystem) (p q : PermissionSet) (request : ToolRequest)
    → (decide fs p request ≡ allow → decide fs q request ≡ allow)
    → (decide fs q request ≡ allow → decide fs p request ≡ allow)
    → decide fs p request ≡ decide fs q request
unfolding decide
decide-both fs p q (read path) f g = by_test _ _ _ f g
decide-both fs p q (write path) f g = by_test _ _ _ f g
decide-both fs p q (exec binary) f g = by_test _ _ _ f g
decide-both fs p q network f g = no_egress p.network q.network

-- Permission sets that compare equal get the same decisions, with the same reasons.
pub decide-permissions_eq :
    (fs : FileSystem) (p q : PermissionSet) (request : ToolRequest)
    → permissions_eq p q ≡ true
    → decide fs p request ≡ decide fs q request
decide-permissions_eq fs p q request h =
    decide-both fs p q request (decide_mono fs p q request (permissions_eq-Narrows p q h))
      (decide_mono fs q p request (permissions_eq-Narrows q p (permissions_eq_symm p q h)))
