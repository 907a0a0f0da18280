-- ===== src/Tests/Jsons.antt =====
-- A small JSON: a value is its own text, and a list of texts is written with a zero behind each.
use attenuate_agent.Prelude.{
  ℕ, zero, suc, ◌<◌, ◌^◌, Option, none, some, List, [], ◌∷◌, ◌++◌, Text, text_eq, ok, if◌then◌else◌,
  ◌≡◌, refl,
}
use attenuate_agent.External.Json.{Json, IsLawful, HasKeys, entry}
use attenuate_agent.Tests.Crates.{terminated}

abbrev texts_of : Text → List Text
texts_of [] = []
texts_of (zero ∷ s) = [] ∷ texts_of s
texts_of (suc c ∷ s) = elim (texts_of s) [ [] ↦ (c ∷ []) ∷ [] | t ∷ ts ↦ (c ∷ t) ∷ ts ]

abbrev joined : List Text → Text
joined [] = []
joined (t ∷ ts) = terminated t ++ joined ts

abbrev joined_entries : List (Text × Text) → Text
joined_entries [] = []
joined_entries ((k, v) ∷ es) = terminated k ++ (terminated v ++ joined_entries es)

abbrev find : Text → List Text → Option Text
find key [] = none
find key (k ∷ []) = none
find key (k ∷ v ∷ rest) = if text_eq k key then some v else find key rest

abbrev get : Text → Text → Option Text
get (suc (suc zero) ∷ s) key = find key (texts_of s)
get s key = none

abbrev as_str : Text → Option Text
as_str (zero ∷ s) = some s
as_str s = none

abbrev as_array : Text → Option (List Text)
as_array (suc zero ∷ s) = some (texts_of s)
as_array s = none

abbrev as_u64 : Text → Option ℕ
as_u64 (suc (suc (suc zero)) ∷ n ∷ s) = some n
as_u64 s = none

abbrev pub small_json : Json
small_json = record {
  Value = Text;
  string = λ s. 0 ∷ s;
  array = λ vs. 1 ∷ joined vs;
  object = λ es. 2 ∷ joined_entries es;
  from_str = ok;
  get = get;
  as_str = as_str;
  as_array = as_array;
  as_u64 = as_u64;
}

texts_of-terminated : (t rest : Text) → texts_of (terminated t ++ rest) ≡ t ∷ texts_of rest
texts_of-terminated [] rest = refl
texts_of-terminated (c ∷ t) rest = rw (texts_of-terminated t rest) refl

texts_of-joined : (ts : List Text) → texts_of (joined ts) ≡ ts
texts_of-joined [] = refl
texts_of-joined (t ∷ ts) = rw (texts_of-terminated t (joined ts), texts_of-joined ts) refl

find-joined_entries :
    (es : List (Text × Text)) (key : Text) → find key (texts_of (joined_entries es)) ≡ entry key es
unfolding entry
find-joined_entries [] key = refl
find-joined_entries ((k, v) ∷ es) key =
    rw
      (
        texts_of-terminated k (terminated v ++ joined_entries es),
        texts_of-terminated v (joined_entries es),
        find-joined_entries es key,
      )
      refl

as_array-joined : (vs : List Text) → as_array (1 ∷ joined vs) ≡ some vs
as_array-joined vs = rw (texts_of-joined vs) refl

get-joined_entries :
    (es : List (Text × Text)) (key : Text)
    → HasKeys es
    → get (2 ∷ joined_entries es) key ≡ entry key es
get-joined_entries es key h = find-joined_entries es key

as_u64-number : (n : ℕ) → n < 2 ^ 64 → as_u64 (3 ∷ n ∷ []) ≡ some n
as_u64-number n h = refl

pub small_json-IsLawful : IsLawful small_json
small_json-IsLawful = record {
  to_string = λ v. v;
  number = λ n. 3 ∷ n ∷ [];
  from_str-to_string = λ v. refl;
  get-object = get-joined_entries;
  as_str-string = λ s. refl;
  as_array-array = as_array-joined;
  as_u64-number = as_u64-number;
}
