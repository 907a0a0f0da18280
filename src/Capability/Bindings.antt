-- ===== src/Capability/Bindings.antt =====
-- Equality of request bindings (the derived `PartialEq` of capability/src/lib.rs).
use attenuate_agent.Prelude.{
  Option, none, some, text_eq→eq, text_eq_refl, ◌≡◌, refl, ap, arith, true, &&_true,
}
use attenuate_agent.Capability.Data.{RequestBinding}
use attenuate_agent.Capability.Token.{optional_binding_eq, binding_eq}

pub binding_eq→eq : (a b : RequestBinding) → binding_eq a b ≡ true → a ≡ b
unfolding binding_eq
binding_eq→eq a b h =
    let (p, rest) = &&_true _ _ h in
    let (q, r) = &&_true _ _ rest in
    let t = text_eq→eq a.tool_name b.tool_name p in
    let g = text_eq→eq a.argument_hash b.argument_hash q in
    let n = text_eq→eq a.nonce b.nonce r in
    λ i. record { tool_name = t i; argument_hash = g i; nonce = n i }

binding_eq_refl : (a : RequestBinding) → binding_eq a a ≡ true
unfolding binding_eq
binding_eq_refl a =
    ground (arith, text_eq_refl a.tool_name, text_eq_refl a.argument_hash, text_eq_refl a.nonce)

pub optional_binding_eq→eq : (a b : Option RequestBinding) → optional_binding_eq a b ≡ true → a ≡ b
unfolding optional_binding_eq
optional_binding_eq→eq none none h = refl
optional_binding_eq→eq none (some b) h = cc
optional_binding_eq→eq (some a) none h = cc
optional_binding_eq→eq (some a) (some b) h = ap some (binding_eq→eq a b h)

pub optional_binding_eq_refl : (a : Option RequestBinding) → optional_binding_eq a a ≡ true
unfolding optional_binding_eq
optional_binding_eq_refl none = refl
optional_binding_eq_refl (some a) = binding_eq_refl a
