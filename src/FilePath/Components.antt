-- ===== src/FilePath/Components.antt =====
-- `starts_with` orders paths by their components.
use attenuate_agent.Prelude.{
  true, List, [], ◌∷◌, Text, text_eq→eq, text_eq_refl, ◌≡◌, refl, ap, arith,
}
use attenuate_agent.FilePath.{
  Component, root_dir, cur_dir, parent_dir, normal, component_eq, begins, starts_with, components,
  path_eq,
}

pub component_eq→eq : (c d : Component) → component_eq c d ≡ true → c ≡ d
unfolding component_eq
component_eq→eq root_dir root_dir h = refl
component_eq→eq cur_dir cur_dir h = refl
component_eq→eq parent_dir parent_dir h = refl
component_eq→eq (normal a) (normal b) h = ap normal (text_eq→eq a b h)
component_eq→eq _ _ h = cc

pub component_eq_refl : (c : Component) → component_eq c c ≡ true
unfolding component_eq
component_eq_refl root_dir = refl
component_eq_refl cur_dir = refl
component_eq_refl parent_dir = refl
component_eq_refl (normal a) = text_eq_refl a

pub begins_refl : (cs : List Component) → begins cs cs ≡ true
unfolding begins
begins_refl [] = refl
begins_refl (c ∷ cs) = ground (arith, component_eq_refl c, begins_refl cs)

pub begins_trans :
    (xs ys zs : List Component) → begins xs ys ≡ true → begins ys zs ≡ true → begins xs zs ≡ true
unfolding begins
begins_trans xs ys [] p q = refl
begins_trans [] (b ∷ ys) (c ∷ zs) p q = ground arith
begins_trans xs [] (c ∷ zs) p q = cc
begins_trans (a ∷ xs) (b ∷ ys) (c ∷ zs) p q =
    ground
      (arith, component_eq→eq a b, component_eq→eq b c, component_eq_refl a, begins_trans xs ys zs)

-- What lies under a directory that lies under a root lies under the root.
pub starts_with_trans :
    (p q r : Text) → starts_with p q ≡ true → starts_with q r ≡ true → starts_with p r ≡ true
unfolding starts_with
starts_with_trans p q r h k = begins_trans (components p) (components q) (components r) h k

pub starts_with_refl : (p : Text) → starts_with p p ≡ true
unfolding starts_with
starts_with_refl p = begins_refl (components p)

pub path_eq_refl : (p : Text) → path_eq p p ≡ true
unfolding path_eq
path_eq_refl p = ground (arith, begins_refl (components p))

pub path_eq→starts_with : (p q : Text) → path_eq p q ≡ true → starts_with p q ≡ true
unfolding path_eq starts_with
path_eq→starts_with p q h = ground arith

pub path_eq_symm : (p q : Text) → path_eq p q ≡ true → path_eq q p ≡ true
unfolding path_eq
path_eq_symm p q h = ground arith
