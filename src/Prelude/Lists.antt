-- ===== src/Prelude/Lists.antt =====
-- Lists measured by native numbers, membership, and Boolean quantifiers that run.
use Prim.Native.Nat.{ℕ, suc, ◌+◌}
use mathlib.Core.Path.{◌≡◌, refl, ap, ◌∙◌}
use mathlib.Core.Logic.{◌⊎◌, inl, inr}
use mathlib.Core.Bool.{Bool, true, false, ◌&&◌, ◌||◌}
use mathlib.Core.Option.{Option, none, some}
use mathlib.Core.List.{List, [], ◌∷◌, ◌++◌}
use native.Mathlib.Omega.{arith}
use attenuate_agent.Prelude.Tests.{if◌then◌else◌, Bool-cases}

module _ {ℓ} {A : Type ℓ} where
  abbrev pub length : List A → ℕ
  length [] = 0
  length (x ∷ xs) = suc (length xs)

  -- `iter().any(p)`
  unfoldable pub any : (A → Bool) → List A → Bool
  any p [] = false
  any p (x ∷ xs) = p x || any p xs

  -- `iter().all(p)`
  unfoldable pub all : (A → Bool) → List A → Bool
  all p [] = true
  all p (x ∷ xs) = p x && all p xs

  -- `iter().filter(p)`
  unfoldable pub keep : (A → Bool) → List A → List A
  keep p [] = []
  keep p (x ∷ xs) = if p x then x ∷ keep p xs else keep p xs

  unfoldable pub last? : List A → Option A
  last? [] = none
  last? (x ∷ []) = some x
  last? (x ∷ y ∷ ys) = last? (y ∷ ys)

  pub length-append : (xs ys : List A) → length (xs ++ ys) ≡ length xs + length ys
  length-append [] ys = omega arith
  length-append (x ∷ xs) ys = omega (arith, length-append xs ys)

module _ {A : Type 0} where
  -- `x` is an element; it says where.
  abbrev pub In : A → List A → Type 0
  In x [] = ⊥
  In x (y ∷ ys) = (x ≡ y) ⊎ In x ys

  pub any→In : (p : A → Bool) (xs : List A) → any p xs ≡ true → (x : A) × In x xs × (p x ≡ true)
  unfolding any
  any→In p [] h = ground arith
  any→In p (x ∷ xs) h = elim (Bool-cases (p x)) [
    | inl e ↦ (x, inl refl, e)
    | inr e ↦ let (y, i, q) = any→In p xs (ground arith) in (y, inr i, q)
  ]

  pub In→any : (p : A → Bool) (xs : List A) (x : A) → In x xs → p x ≡ true → any p xs ≡ true
  unfolding any
  In→any p [] x i h = elim i [ ]
  In→any p (y ∷ ys) x (inl e) h = ground (arith, ap p e)
  In→any p (y ∷ ys) x (inr i) h = ground (arith, In→any p ys x i h)

  pub all→In : (p : A → Bool) (xs : List A) (x : A) → all p xs ≡ true → In x xs → p x ≡ true
  unfolding all
  all→In p [] x h i = elim i [ ]
  all→In p (y ∷ ys) x h (inl e) = ground (arith, ap p e)
  all→In p (y ∷ ys) x h (inr i) = all→In p ys x (ground arith) i

  pub In→all : (p : A → Bool) (xs : List A) → ((x : A) → In x xs → p x ≡ true) → all p xs ≡ true
  unfolding all
  In→all p [] h = refl
  In→all p (y ∷ ys) h = ground (arith, h y (inl refl), In→all p ys (λ x i. h x (inr i)))

  pub In-append_left : (x : A) (xs ys : List A) → In x xs → In x (xs ++ ys)
  In-append_left x [] ys i = elim i [ ]
  In-append_left x (y ∷ xs) ys (inl e) = inl e
  In-append_left x (y ∷ xs) ys (inr i) = inr (In-append_left x xs ys i)

  pub In-append_right : (x : A) (xs ys : List A) → In x ys → In x (xs ++ ys)
  In-append_right x [] ys i = i
  In-append_right x (y ∷ xs) ys i = inr (In-append_right x xs ys i)

  pub In-append_cases : (x : A) (xs ys : List A) → In x (xs ++ ys) → In x xs ⊎ In x ys
  In-append_cases x [] ys i = inr i
  In-append_cases x (y ∷ xs) ys (inl e) = inl (inl e)
  In-append_cases x (y ∷ xs) ys (inr i) = elim (In-append_cases x xs ys i) [
    | inl j ↦ inl (inr j)
    | inr j ↦ inr j
  ]

  pub In-keep : (p : A → Bool) (x : A) (xs : List A) → In x xs → p x ≡ true → In x (keep p xs)
  unfolding keep
  In-keep p x [] i h = elim i [ ]
  In-keep p x (y ∷ ys) (inl e) h = ground (arith, ap p e)
  In-keep p x (y ∷ ys) (inr i) h = ground (arith, In-keep p x ys i h)

  pub keep-In : (p : A → Bool) (x : A) (xs : List A) → In x (keep p xs) → In x xs × (p x ≡ true)
  unfolding keep
  keep-In p x [] i = elim i [ ]
  keep-In p x (y ∷ ys) i = elim (Bool-cases (p y)) [
    | inl e ↦
        let j : In x (y ∷ keep p ys) = rw e at i in
        elim j [ inl q ↦ (inl q, ap p q ∙ e) | inr k ↦ let (m, q) = keep-In p x ys k in (inr m, q) ]
    | inr e ↦ let j : In x (keep p ys) = rw e at i in let (k, q) = keep-In p x ys j in (inr k, q)
  ]
