-- ===== src/Prelude/Options.antt =====
-- `?` on an `Option`, as a `do` block.
use mathlib.Core.Path.{◌≡◌, refl}
use mathlib.Core.Option.{Option, none, some}
use native.Mathlib.Omega.{arith}

module _ {ℓ κ} {A : Type ℓ} {B : Type κ} where
  infixl 5 ◌>>=◌ ◌>>◌
  abbrev pub ◌>>=◌ : Option A → (A → Option B) → Option B
  none >>= next = none
  some a >>= next = next a

  abbrev pub ◌>>◌ : Option A → Option B → Option B
  first >> second = first >>= λ _. second

  -- A value comes only by way of a value of the first.
  pub >>=-eq-some :
      (o : Option A) (next : A → Option B) {b : B}
      → (o >>= next) ≡ some b
      → (a : A) × (o ≡ some a) × (next a ≡ some b)
  >>=-eq-some none next h = absurd (ground arith)
  >>=-eq-some (some a) next h = (a, refl, h)

pub some-injective {ℓ} : {A : Type ℓ} {a b : A} → some a ≡ some b → a ≡ b
some-injective h = cc
