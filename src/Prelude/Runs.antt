-- ===== src/Prelude/Runs.antt =====
-- Fallible operations on a state: the state comes back beside an error too.
use attenuate_agent.Prelude.Results.{Result, ok, err, panic}

abbrev pub Run {ℓ} : Type ℓ → Type 0 → Type 0 → Type ℓ
Run S E A = S → Result E A × S

module _ {ℓ} {S : Type ℓ} {E A B : Type 0} where
  abbrev pub continue : Result E A → (A → Run S E B) → Run S E B
  continue (ok a) f s = f a s
  continue (err e) f s = (err e, s)
  continue panic f s = (panic, s)

  infixl 5 ◌>>=◌ ◌>>◌
  abbrev pub ◌>>=◌ : Run S E A → (A → Run S E B) → Run S E B
  ◌>>=◌ m f s = let (r, s') = m s in continue r f s'

  abbrev pub ◌>>◌ : Run S E A → Run S E B → Run S E B
  m >> n = m >>= λ _. n

abbrev pub lift {ℓ} : {S : Type ℓ} {E A : Type 0} → Result E A → Run S E A
lift r s = (r, s)

abbrev pub pure {ℓ} : {S : Type ℓ} {E A : Type 0} → A → Run S E A
pure a s = (ok a, s)

-- `map_err` of an operation, which `?` applies to its error.
abbrev pub mapped {ℓ} :
    {S : Type ℓ} {E F A : Type 0} → (Result E A → Result F A) → Run S E A → Run S F A
mapped f m s = let (r, s') = m s in (f r, s')

-- What each part of a sequence keeps, the whole keeps, however it ends.
pub continue-keeps {ℓ κ} :
    {S : Type ℓ} {E A B : Type 0} (P : S → Type κ) (r : Result E A) (f : A → Run S E B) (s : S)
    → P s
    → ((a : A) (t : S) → P t → P (f a t).1)
    → P (continue r f s).1
continue-keeps P (ok a) f s h k = k a s h
continue-keeps P (err e) f s h k = h
continue-keeps P panic f s h k = h

-- What holds of an error, of a panic and of all that follows a value, holds of the sequence.
pub continue-cases {ℓ κ} :
    {S : Type ℓ} {E A B : Type 0} (P : Result E B × S → Type κ) (r : Result E A) (f : A → Run S E B)
    (s : S)
    → ((a : A) → P (f a s))
    → ((e : E) → P (err e, s))
    → P (panic, s)
    → P (continue r f s)
continue-cases P (ok a) f s h e p = h a
continue-cases P (err x) f s h e p = e x
continue-cases P panic f s h e p = p
