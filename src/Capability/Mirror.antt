-- ===== src/Capability/Mirror.antt =====
-- The permissions that `verify_and_decode` recovers grant no more than the struct that was compared
-- with them: equal sets of roots hold the same paths.
use attenuate_agent.Prelude.{
  Bool, true, List, Text, text_eq, text_eq→eq, ok, >>=-eq-ok, ◌≡◌, sym, subst, ◌∙◌, any→In, In→any,
  all→In, &&_true, arith,
}
use attenuate_agent.FilePath.{path_eq, starts_with}
use attenuate_agent.FilePath.Components.{path_eq→starts_with}
use attenuate_agent.External.{FileSystem, Chrono, UuidText, BiscuitAuth}
use attenuate_agent.Manifest.{NetworkPolicy, deny_all}
use attenuate_agent.Capability.Data.{PermissionSet, ChildCapability, VerifiedState}
use attenuate_agent.Capability.Sets.{contains, set_eq}
use attenuate_agent.Capability.Resolve.{is_under_any_root}
use attenuate_agent.Capability.Permissions.{under_roots, allows_read, allows_write, allows_exec}
use attenuate_agent.Capability.Codec.Decode
use attenuate_agent.Capability.Codec.Decode.{decode_state}
use attenuate_agent.Capability.Token.{
  permissions_eq, network_eq, optional_binding_eq, request_binding, verify_and_decode,
  parse_public_key, from_codec,
}
use attenuate_agent.Capability.Narrowing.{
  Narrows, under_roots-true, under_roots-ok, is_under_any_root_mono,
}

set_eq-under :
    (now : FileSystem) (roots parents : List Text) (path : Text)
    → set_eq path_eq roots parents ≡ true
    → under_roots now roots path ≡ true
    → under_roots now parents path ≡ true
unfolding set_eq is_under_any_root
set_eq-under now roots parents path same h =
    let (q, c, u) = under_roots-true now roots path h in
    under_roots-ok now parents path c
    ∙ is_under_any_root_mono q roots parents
        (λ root i.
          let (r, j, e) =
            any→In (path_eq root) parents
              (all→In (contains path_eq parents) roots root (&&_true _ _ same).0 i) in
          In→any (λ p. starts_with root p) parents r j (path_eq→starts_with root r e))
        u

set_eq-exec :
    (xs ys : List Text) (binary : Text)
    → set_eq text_eq xs ys ≡ true
    → contains text_eq xs binary ≡ true
    → contains text_eq ys binary ≡ true
unfolding set_eq
set_eq-exec xs ys binary same h =
    let (b, i, e) = any→In (text_eq binary) xs h in
    let k = all→In (contains text_eq ys) xs b (&&_true _ _ same).0 i in
    subst (λ t. contains text_eq ys t ≡ true) (sym (text_eq→eq binary b e)) k

-- Permission sets that compare equal grant the same rights.
pub permissions_eq-Narrows : (p q : PermissionSet) → permissions_eq p q ≡ true → Narrows p q
unfolding permissions_eq allows_read allows_write allows_exec
permissions_eq-Narrows p q same =
    let (r, rest) = &&_true _ _ same in
    let (w, rest') = &&_true _ _ rest in
    let (x, n) = &&_true _ _ rest' in
    record {
      read = λ now path h. set_eq-under now p.readable_roots q.readable_roots path r h;
      write = λ now path h. set_eq-under now p.writable_roots q.writable_roots path w h;
      exec = λ binary h. set_eq-exec p.exec_binaries q.exec_binaries binary x h;
    }

set_eq_symm :
    {A : Type 0} (eq : A → A → Bool) (xs ys : List A)
    → set_eq eq xs ys ≡ true
    → set_eq eq ys xs ≡ true
unfolding set_eq
set_eq_symm eq xs ys h = ground arith

network_eq_symm : (m n : NetworkPolicy) → network_eq m n ≡ true → network_eq n m ≡ true
network_eq_symm deny_all deny_all h = h

pub permissions_eq_symm :
    (p q : PermissionSet) → permissions_eq p q ≡ true → permissions_eq q p ≡ true
unfolding permissions_eq
permissions_eq_symm p q h =
    let (r, rest) = &&_true _ _ h in
    let (w, rest') = &&_true _ _ rest in
    let (x, n) = &&_true _ _ rest' in
    rw
      (
        set_eq_symm path_eq p.readable_roots q.readable_roots r,
        set_eq_symm path_eq p.writable_roots q.writable_roots w,
        set_eq_symm text_eq p.exec_binaries q.exec_binaries x,
      )
      (network_eq_symm p.network q.network n)

module _ (ch : Chrono) (ids : UuidText) (bis : BiscuitAuth) where
  -- What `verify_and_decode` has established when it succeeds: the state is the one decoded from the
  -- token under the capability's key, and it agrees with the struct.
  pub record Recovered (child : ChildCapability) (state : VerifiedState) : Type 0 where
    pub key : bis.PublicKey
    pub parsed : parse_public_key bis child.root_public_key ≡ ok key
    pub decoded : Decode.DecodedState
    pub signed : from_codec (decode_state bis ch ids child.token key) ≡ ok decoded
    pub task_id : state.task_id ≡ decoded.task_id
    pub permissions : state.permissions ≡ decoded.permissions
    pub expires_at : state.expires_at ≡ decoded.expires_at
    pub binding : state.request_binding ≡ decoded.request_binding
    pub same_permissions : permissions_eq state.permissions child.permissions ≡ true
    pub same_expiry : state.expires_at ≡ child.expires_at
    pub same_binding : optional_binding_eq state.request_binding (request_binding child) ≡ true

  pub verify_and_decode-Recovered :
      (child : ChildCapability) {state : VerifiedState}
      → verify_and_decode ch ids bis child ≡ ok state
      → Recovered child state
  unfolding verify_and_decode
  verify_and_decode-Recovered child {state} h =
      let (k, e, h') = >>=-eq-ok (parse_public_key bis child.root_public_key) _ h in
      let (d, e', h'') = >>=-eq-ok (from_codec (decode_state bis ch ids child.token k)) _ h' in
      record {
        key = k;
        parsed = e;
        decoded = d;
        signed = e';
        task_id = ground arith;
        permissions = ground arith;
        expires_at = ground arith;
        binding = ground arith;
        same_permissions = ground arith;
        same_expiry = ground arith;
        same_binding = ground arith;
      }
