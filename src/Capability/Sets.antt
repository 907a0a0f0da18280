-- ===== src/Capability/Sets.antt =====
-- `BTreeSet` as a list without equal elements. The order of its elements, which no decision of the
-- program depends on, is not modelled; `==` compares two sets by their elements.
use attenuate_agent.Prelude.{Bool, List, [], ◌∷◌, any, all, ◌&&◌, if◌then◌else◌}

module _ {ℓ} {A : Type ℓ} (eq : A → A → Bool) where
  unfoldable pub contains : List A → A → Bool
  unfolding any
  contains xs a = any (eq a) xs

  unfoldable pub insert : A → List A → List A
  unfolding contains
  insert a xs = if contains xs a then xs else a ∷ xs

  -- `into_iter().collect::<BTreeSet<_>>()`; of equal elements the last is kept
  unfoldable pub collect_set : List A → List A
  unfolding insert
  collect_set [] = []
  collect_set (x ∷ xs) = insert x (collect_set xs)

  unfoldable pub set_eq : List A → List A → Bool
  unfolding contains all
  set_eq xs ys = all (contains ys) xs && all (contains xs) ys
