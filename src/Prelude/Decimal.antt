-- ===== src/Prelude/Decimal.antt =====
-- The decimal digits that `{}` prints of a number.
use Prim.Native.Nat.{ℕ, zero, suc, ◌+◌, ◌/◌, ◌%◌}
use mathlib.Core.List.{[], ◌∷◌, ◌++◌}
use attenuate_agent.Prelude.Tests.{ltb, if◌then◌else◌}
use attenuate_agent.Prelude.Texts.{Text}

-- A number has at most as many digits as its successor counts rounds.
decimal_rounds : ℕ → ℕ → Text
decimal_rounds zero n = []
decimal_rounds (suc rounds) n =
    let rest = decimal_rounds rounds (n / 10) in
    if ltb n 10 then (b'0' + n) ∷ [] else rest ++ ((b'0' + n % 10) ∷ [])

unfoldable pub decimal : ℕ → Text
unfolding decimal_rounds
decimal n = decimal_rounds (suc n) n
