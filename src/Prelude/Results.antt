-- ===== src/Prelude/Results.antt =====
-- `Result<A, E>` of a call that may also panic, and its `?` as a `do` block.
use mathlib.Core.Path.{◌≡◌, refl}
use mathlib.Core.Logic.{◌⊎◌, inl, inr}

pub data Result {ℓ κ} (E : Type ℓ) (A : Type κ) : Type (ℓ ⊔ κ) where
  ok : A → Result E A
  err : E → Result E A
  panic : Result E A

module _ {ℓ κ μ} {E : Type ℓ} {A : Type κ} {B : Type μ} where
  infixl 5 ◌>>=◌ ◌>>◌
  abbrev pub ◌>>=◌ : Result E A → (A → Result E B) → Result E B
  panic >>= next = panic
  err e >>= next = err e
  ok a >>= next = next a

  abbrev pub ◌>>◌ : Result E A → Result E B → Result E B
  first >> second = first >>= λ _. second

-- `map_err`
abbrev pub map_err {ℓ κ μ} :
    {E : Type ℓ} {F : Type κ} {A : Type μ} → (E → F) → Result E A → Result F A
map_err f (ok a) = ok a
map_err f (err e) = err (f e)
map_err f panic = panic

-- A call followed by others succeeds only by way of a value of the first.
pub >>=-eq-ok {ℓ κ μ} :
    {E : Type ℓ} {A : Type κ} {B : Type μ} (r : Result E A) (next : A → Result E B) {last : B}
    → (r >>= next) ≡ ok last
    → (value : A) × (r ≡ ok value) × (next value ≡ ok last)
>>=-eq-ok panic next done = cc
>>=-eq-ok (err e) next done = cc
>>=-eq-ok (ok value) next done = (value, refl, done)

pub map_err-eq-ok {ℓ κ μ} :
    {E : Type ℓ} {F : Type κ} {A : Type μ} (f : E → F) (m : Result E A) {a : A}
    → map_err f m ≡ ok a
    → m ≡ ok a
map_err-eq-ok f (ok a) h = cc
map_err-eq-ok f (err e) h = cc
map_err-eq-ok f panic h = cc

pub ok-injective {ℓ κ} :
    {E : Type ℓ} {A : Type κ} {a b : A} → ◌≡◌ {A = Result E A} (ok a) (ok b) → a ≡ b
ok-injective h = cc

-- To split on a computed result and keep the equation.
pub Result-cases {ℓ κ} :
    {E : Type ℓ} {A : Type κ} (r : Result E A)
    → ((a : A) × (r ≡ ok a)) ⊎ ((e : E) × (r ≡ err e)) ⊎ (r ≡ panic)
Result-cases (ok a) = inl (a, refl)
Result-cases (err e) = inr (inl (e, refl))
Result-cases panic = inr (inr refl)
