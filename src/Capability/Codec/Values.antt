-- ===== src/Capability/Codec/Values.antt =====
-- The values that the facts of a token give to a predicate at a block id.
use attenuate_agent.Prelude.{
  Bool, true, false, ◌&&◌, List, [], ◌∷◌, ◌++◌, map, In, Text, text_eq, text_eq→eq, text_eq_refl,
  if◌then◌else◌, Bool-cases, &&_true, ◌≡◌, refl, ap, subst, inl, inr, arith,
}
use attenuate_agent.Prelude.Int.{ℤ, pos, negsuc, eq_ℤ, leb_ℤ}
use attenuate_agent.External.{Fact, unary, binary}

pub eq_ℤ_refl : (i : ℤ) → eq_ℤ i i ≡ true
unfolding eq_ℤ
eq_ℤ_refl (pos a) = ground arith
eq_ℤ_refl (negsuc a) = ground arith

pub eq_ℤ→eq : (i j : ℤ) → eq_ℤ i j ≡ true → i ≡ j
unfolding eq_ℤ
eq_ℤ→eq (pos a) (pos b) h = ap pos (ground arith)
eq_ℤ→eq (pos a) (negsuc b) h = absurd (ground arith)
eq_ℤ→eq (negsuc a) (pos b) h = absurd (ground arith)
eq_ℤ→eq (negsuc a) (negsuc b) h = ap negsuc (ground arith)

pub leb_ℤ_refl : (i : ℤ) → leb_ℤ i i ≡ true
unfolding leb_ℤ
leb_ℤ_refl (pos a) = ground arith
leb_ℤ_refl (negsuc a) = ground arith

pub leb_ℤ_total : (i j : ℤ) → leb_ℤ i j ≡ false → leb_ℤ j i ≡ true
unfolding leb_ℤ
leb_ℤ_total (pos a) (pos b) h = ground arith
leb_ℤ_total (pos a) (negsuc b) h = refl
leb_ℤ_total (negsuc a) (pos b) h = absurd (ground arith)
leb_ℤ_total (negsuc a) (negsuc b) h = ground arith

unfoldable pub values : Text → ℤ → List Fact → List Text
values q id [] = []
values q id (unary p v ∷ fs) = values q id fs
values q id (binary p i v ∷ fs) =
    let rest = values q id fs in if text_eq p q && eq_ℤ i id then v ∷ rest else rest

pub values-append :
    (q : Text) (id : ℤ) (fs gs : List Fact)
    → values q id (fs ++ gs) ≡ values q id fs ++ values q id gs
unfolding values
values-append q id [] gs = refl
values-append q id (unary p v ∷ fs) gs = values-append q id fs gs
values-append q id (binary p i v ∷ fs) gs = ground (arith, values-append q id fs gs)

pub In→values :
    (q : Text) (id : ℤ) (v : Text) (fs : List Fact) → In (binary q id v) fs → In v (values q id fs)
unfolding values
In→values q id v [] i = elim i [ ]
In→values q id v (unary p u ∷ fs) (inl e) = absurd (ground arith)
In→values q id v (unary p u ∷ fs) (inr i) = In→values q id v fs i
In→values q id v (binary p j u ∷ fs) (inl e) =
    let same : q ≡ p = cc in
    let at : id ≡ j = cc in
    let a = subst (λ t. text_eq t q ≡ true) same (text_eq_refl q) in
    let b = subst (λ k. eq_ℤ k id ≡ true) at (eq_ℤ_refl id) in
    let c : v ≡ u = cc in rw (a, b, c) (inl refl)
In→values q id v (binary p j u ∷ fs) (inr i) = elim (Bool-cases (text_eq p q && eq_ℤ j id)) [
  | inl e ↦ rw e (inr (In→values q id v fs i))
  | inr e ↦ rw e (In→values q id v fs i)
]

pub values→In :
    (q : Text) (id : ℤ) (v : Text) (fs : List Fact) → In v (values q id fs) → In (binary q id v) fs
unfolding values
values→In q id v [] i = elim i [ ]
values→In q id v (unary p u ∷ fs) i = inr (values→In q id v fs i)
values→In q id v (binary p j u ∷ fs) i = elim (Bool-cases (text_eq p q && eq_ℤ j id)) [
  | inl e ↦
      let (a, b) = &&_true (text_eq p q) (eq_ℤ j id) e in
      let same = text_eq→eq p q a in
      let at = eq_ℤ→eq j id b in
      elim (subst (λ (c : Bool). In v (if c then u ∷ values q id fs else values q id fs)) e i) [
        | inl k ↦ inl cc
        | inr k ↦ inr (values→In q id v fs k)
      ]
  | inr e ↦ inr (
      values→In q id v fs
        (subst (λ (c : Bool). In v (if c then u ∷ values q id fs else values q id fs)) e i))
]

-- No fact, no value.
pub values-none :
    (q : Text) (id : ℤ) (fs : List Fact)
    → ((v : Text) → In (binary q id v) fs → ⊥)
    → values q id fs ≡ []
values-none q id fs h = empty (values q id fs) (λ v i. h v (values→In q id v fs i))
  where
    empty : (vs : List Text) → ((v : Text) → In v vs → ⊥) → vs ≡ []
    empty [] n = refl
    empty (v ∷ vs) n = absurd (n v (inl refl))

module _ {ℓ} {A : Type ℓ} (q p : Text) (id : ℤ) (f : A → Text) where
  pub values-map-same :
      (xs : List A) → p ≡ q → values q id (map (λ x. binary p id (f x)) xs) ≡ map f xs
  unfolding values
  values-map-same [] e = refl
  values-map-same (x ∷ xs) e =
      let a : text_eq p q ≡ true = subst (λ t. text_eq p t ≡ true) e (text_eq_refl p) in
      let b = eq_ℤ_refl id in rw (a, b, values-map-same xs e) refl

  pub values-map-other :
      (xs : List A) → text_eq p q ≡ false → values q id (map (λ x. binary p id (f x)) xs) ≡ []
  unfolding values
  values-map-other [] e = refl
  values-map-other (x ∷ xs) e = rw e (values-map-other xs e)
