-- ===== src/Tools/Binding.antt =====
-- A capability that is bound to a call authorizes no other call (tools/src/lib.rs).
use attenuate_agent.Prelude.{
  Option, none, some, [], ◌∷◌, ◌++◌, Text, ok, >>=-eq-ok, ok-injective, length, length-append, ◌≡◌,
  refl, sym, ◌∙◌, ap, subst, arith,
}
use mathlib.Core.Path.{ap₂}
use attenuate_agent.Prelude.Splits.{append-injective}
use attenuate_agent.External.{Uuid}
use attenuate_agent.Capability.Data.{RequestBinding}
use attenuate_agent.Pdp.{ToolRequest}
use attenuate_agent.Tools.{
  Crates, argument_bytes, hash_tool_arguments, request_tool_name, request_binding_for,
}

append-cancel : (xs : Text) {ys zs : Text} → xs ++ ys ≡ xs ++ zs → ys ≡ zs
append-cancel xs e = (append-injective xs xs refl e).1

-- With one name and one nonce of the same length, different arguments are hashed from different bytes.
argument_bytes-injective :
    (name a b n : Text) → argument_bytes name a n ≡ argument_bytes name b n → a ≡ b
unfolding argument_bytes
argument_bytes-injective name a b n e =
    let tails : a ++ (0 ∷ n) ≡ b ++ (0 ∷ n) = ap tail_of (append-cancel name e) in
    let same : length a ≡ length b = omega (
      arith,
      length-append a (0 ∷ n),
      length-append b (0 ∷ n),
      ap (λ (t : Text). length t) tails,
    ) in
    (append-injective a b same tails).0
  where
    tail_of : Text → Text
    tail_of [] = []
    tail_of (c ∷ s) = s

-- What is hashed for the two requests does not collide.
abbrev pub IsApart : Crates → ToolRequest → Uuid → ToolRequest → Uuid → Type 0
IsApart crates a m b n =
    (s t : Text)
    → crates.to_json a ≡ ok s
    → crates.to_json b ≡ ok t
    → crates.hash (argument_bytes (request_tool_name a) s m)
      ≡ crates.hash (argument_bytes (request_tool_name b) t n)
    → argument_bytes (request_tool_name a) s m ≡ argument_bytes (request_tool_name b) t n

-- The same, with the second nonce if there is one.
abbrev pub IsApartFrom : Crates → ToolRequest → Uuid → ToolRequest → Option Uuid → Type 0
IsApartFrom crates a m b none = Unit
IsApartFrom crates a m b (some n) = IsApart crates a m b n

module _ (crates : Crates)
    (json_injective : (a b : ToolRequest) (s : Text)
      → crates.to_json a ≡ ok s
      → crates.to_json b ≡ ok s
      → a ≡ b) where
  -- Two requests with the same binding are the same, and were bound with the same nonce. The hashes
  -- of the two are taken not to collide and the JSON text of a request to determine it.
  pub request_binding_for-injective :
      (a b : ToolRequest) (m n : Uuid) {x y : RequestBinding}
      → IsApart crates a m b n
      → request_binding_for crates.hash crates.to_json a m ≡ ok x
      → request_binding_for crates.hash crates.to_json b n ≡ ok y
      → x ≡ y
      → (a ≡ b) × (m ≡ n)
  unfolding request_binding_for hash_tool_arguments
  request_binding_for-injective a b m n {x} {y} apart h k same =
      let (s, e, h') = >>=-eq-ok (crates.to_json a) _ h in
      let (t, f, k') = >>=-eq-ok (crates.to_json b) _ k in
      let p = ok-injective h' ∙ same ∙ sym (ok-injective k') in
      let names = ap (λ (r : RequestBinding). r.tool_name) p in
      let nonces = ap (λ (r : RequestBinding). r.nonce) p in
      let hashes = ap (λ (r : RequestBinding). r.argument_hash) p in
      let bytes = apart s t e f hashes in
      let aligned : argument_bytes (request_tool_name b) s n
          ≡ argument_bytes (request_tool_name b) t n =
        ap₂ (λ u v. argument_bytes u s v) (sym names) (sym nonces) ∙ bytes in
      let q = argument_bytes-injective (request_tool_name b) s t n aligned in
      (json_injective a b s e (subst (λ u. crates.to_json b ≡ ok u) (sym q) f), nonces)
