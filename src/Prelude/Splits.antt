-- ===== src/Prelude/Splits.antt =====
-- Taking an appended text apart again.
use Prim.Native.Nat.{ℕ}
use mathlib.Core.Path.{◌≡◌, refl}
use mathlib.Core.List.{List, [], ◌∷◌, ◌++◌}
use native.Mathlib.Omega.{arith}
use attenuate_agent.Prelude.Lists.{length}

pub append-injective :
    (xs ys : List ℕ) {rs ss : List ℕ}
    → length xs ≡ length ys
    → xs ++ rs ≡ ys ++ ss
    → (xs ≡ ys) × (rs ≡ ss)
append-injective [] [] l e = (refl, e)
append-injective [] (y ∷ ys) l e = absurd (omega arith)
append-injective (x ∷ xs) [] l e = absurd (omega arith)
append-injective (x ∷ xs) (y ∷ ys) {rs} {ss} l e =
    ground (arith, append-injective xs ys {rs = rs} {ss = ss})
