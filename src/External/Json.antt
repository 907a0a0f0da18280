-- ===== src/External/Json.antt =====
-- serde_json, as far as the agent calls it: the values, their text and their accessors.
use attenuate_agent.Prelude.{
  ℕ, ◌<◌, Option, none, some, List, [], ◌∷◌, Text, text_eq, Result, ok, if◌then◌else◌, ◌≡◌, ◌^◌,
}

pub record Json : Type 1 where
  pub Value : Type 0
  -- what `json!` makes of a literal, an array and an object
  pub string : Text → Value
  pub array : List Value → Value
  pub object : List (Text × Value) → Value
  -- `serde_json::from_str`
  pub from_str : Text → Result Text Value
  -- the accessors of `Value`
  pub get : Value → Text → Option Value
  pub as_str : Value → Option Text
  pub as_array : Value → Option (List Value)
  pub as_u64 : Value → Option ℕ

-- The entry of a key, in entries with different keys.
unfoldable pub entry : {V : Type 0} → Text → List (Text × V) → Option V
unfolding text_eq
entry key [] = none
entry key ((k, v) ∷ entries) = if text_eq k key then some v else entry key entries

-- No two entries have the same key.
abbrev pub HasKeys : {V : Type 0} → List (Text × V) → Type 0
HasKeys [] = Unit
HasKeys ((k, v) ∷ entries) = (entry k entries ≡ none) × HasKeys entries

-- What is relied on: values that are printed are parsed back, and the accessors give what was put in.
pub record IsLawful (j : Json) : Type 0 where
  pub to_string : j.Value → Text
  pub number : ℕ → j.Value
  pub from_str-to_string : (v : j.Value) → j.from_str (to_string v) ≡ ok v
  pub get-object :
      (entries : List (Text × j.Value)) (key : Text)
      → HasKeys entries
      → j.get (j.object entries) key ≡ entry key entries
  pub as_str-string : (s : Text) → j.as_str (j.string s) ≡ some s
  pub as_array-array : (vs : List j.Value) → j.as_array (j.array vs) ≡ some vs
  pub as_u64-number : (n : ℕ) → n < 2 ^ 64 → j.as_u64 (number n) ≡ some n
