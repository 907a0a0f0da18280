-- ===== src/Capability/Codec/Rows.antt =====
-- What `decode_state` makes of the rows of a query: the latest block, and the values at it.
use attenuate_agent.Prelude.{
  Bool, true, false, none, some, List, [], ◌∷◌, map, In, In-keep, keep-In, any, In→any, In→all,
  Text, Bool-cases, ◌≡◌, refl, sym, ap, subst, ◌↔◌, ◌⊎◌, inl, inr, arith, keep,
}
use attenuate_agent.Prelude.Int.{ℤ, leb_ℤ, eq_ℤ}
use attenuate_agent.Capability.Sets.{contains, insert, collect_set, set_eq}
use attenuate_agent.Capability.Codec.Decode.{Rows, max_from, max_by_key, values_of, next}
use attenuate_agent.Capability.Codec.Values.{eq_ℤ_refl, eq_ℤ→eq, leb_ℤ_total}

In-map : (id : ℤ) (v : Text) (rows : Rows) → In (id, v) rows → In v (map (λ (i, u). u) rows)
In-map id v [] i = elim i [ ]
In-map id v (row ∷ rows) (inl e) = inl (ap (λ p. p.1) e)
In-map id v (row ∷ rows) (inr i) = inr (In-map id v rows i)

map-In : (v : Text) (rows : Rows) → In v (map (λ (i, u). u) rows) → (id : ℤ) × In (id, v) rows
map-In v [] i = elim i [ ]
map-In v ((j, u) ∷ rows) (inl e) = (j, inl (ap (λ t. (j, t)) e))
map-In v (row ∷ rows) (inr i) = let (id, k) = map-In v rows i in (id, inr k)

-- The values at a block are those of its rows.
pub values_of_iff : (id : ℤ) (v : Text) (rows : Rows) → In v (values_of id rows) ↔ In (id, v) rows
unfolding values_of
values_of_iff id v rows = (
  λ i.
      let (j, k) = map-In v (keep (λ (i, u). eq_ℤ i id) rows) i in
      let (m, e) = keep-In (λ (i, u). eq_ℤ i id) (j, v) rows k in
      subst (λ n. In (n, v) rows) (eq_ℤ→eq j id e) m,
  λ i.
      In-map id v (keep (λ (i, u). eq_ℤ i id) rows)
        (In-keep (λ (i, u). eq_ℤ i id) (id, v) rows i (eq_ℤ_refl id)),
)

-- A row is that of the block `id`, or of an older block.
abbrev pub IsLatest : ℤ → Text → ℤ × Text → Type 0
IsLatest id v row = (row ≡ (id, v)) ⊎ (leb_ℤ id row.0 ≡ false)

max_from-latest :
    (id : ℤ) (v : Text) (best : ℤ × Text) (rows : Rows)
    → IsLatest id v best
    → ((row : ℤ × Text) → In row rows → IsLatest id v row)
    → (best ≡ (id, v)) ⊎ In (id, v) rows
    → max_from best rows ≡ (id, v)
unfolding max_from
max_from-latest id v best [] b h (inl e) = e
max_from-latest id v best [] b h (inr i) = elim i [ ]
max_from-latest id v best (row ∷ rows) b h m = elim (Bool-cases (leb_ℤ best.0 row.0)) [
  | inl e ↦ rw e (
      max_from-latest id v row rows (h row (inl refl)) (λ r i. h r (inr i))
        (taken m (h row (inl refl)) e))
  | inr e ↦ rw e (max_from-latest id v best rows b (λ r i. h r (inr i)) (kept m b e))
]
  where
    taken :
        (best ≡ (id, v)) ⊎ In (id, v) (row ∷ rows)
        → IsLatest id v row
        → leb_ℤ best.0 row.0 ≡ true
        → (row ≡ (id, v)) ⊎ In (id, v) rows
    taken (inl p) (inl q) e = inl q
    taken (inl p) (inr q) e = absurd (clash p q e)
      where
        clash : best ≡ (id, v) → leb_ℤ id row.0 ≡ false → leb_ℤ best.0 row.0 ≡ true → ⊥
        clash p q e =
            let s = subst (λ (b : ℤ × Text). leb_ℤ b.0 row.0 ≡ true) p e in absurd (ground arith)
    taken (inr (inl p)) l e = inl (sym p)
    taken (inr (inr i)) l e = inr i

    kept :
        (best ≡ (id, v)) ⊎ In (id, v) (row ∷ rows)
        → IsLatest id v best
        → leb_ℤ best.0 row.0 ≡ false
        → (best ≡ (id, v)) ⊎ In (id, v) rows
    kept (inl p) l e = inl p
    kept (inr (inr i)) l e = inr i
    kept (inr (inl p)) (inl q) e = inl q
    kept (inr (inl p)) (inr q) e =
        let t = leb_ℤ_total id best.0 q in
        let s = subst (λ (b : ℤ × Text). leb_ℤ best.0 b.0 ≡ false) (sym p) e in
        absurd (ground arith)

-- The latest row is found, wherever it stands among the rows.
pub max_by_key-latest :
    (id : ℤ) (v : Text) (rows : Rows)
    → ((row : ℤ × Text) → In row rows → IsLatest id v row)
    → In (id, v) rows
    → max_by_key rows ≡ some (id, v)
unfolding max_by_key
max_by_key-latest id v [] h i = elim i [ ]
max_by_key-latest id v (row ∷ rows) h (inl e) =
    ap some (max_from-latest id v row rows (h row (inl refl)) (λ r i. h r (inr i)) (inl (sym e)))
max_by_key-latest id v (row ∷ rows) h (inr i) =
    ap some (max_from-latest id v row rows (h row (inl refl)) (λ r i. h r (inr i)) (inr i))

-- The first of values that are all the same.
pub next-some :
    (v : Text) (vs : List Text) → ((u : Text) → In u vs ↔ In u (v ∷ [])) → next vs ≡ some v
unfolding next
next-some v [] h = elim ((h v).1 (inl refl)) [ ]
next-some v (u ∷ vs) h = elim ((h u).0 (inl refl)) [ inl e ↦ ap some e | inr i ↦ elim i [ ] ]

pub next-none : (vs : List Text) → ((u : Text) → In u vs ↔ In u []) → next vs ≡ none
unfolding next
next-none [] h = refl
next-none (u ∷ vs) h = elim ((h u).0 (inl refl)) [ ]

module _ (eq : Text → Text → Bool) (eq_refl : (t : Text) → eq t t ≡ true) where
  insert-old :
      (a x : Text) (xs : List Text)
      → contains eq xs x ≡ true
      → contains eq (insert eq a xs) x ≡ true
  unfolding insert contains any
  insert-old a x xs h = ground arith

  insert-new : (a : Text) (xs : List Text) → contains eq (insert eq a xs) a ≡ true
  unfolding insert contains any
  insert-new a xs = ground (arith, eq_refl a)

  collect_set-contains :
      (x : Text) (xs : List Text) → In x xs → contains eq (collect_set eq xs) x ≡ true
  unfolding collect_set
  collect_set-contains x [] i = elim i [ ]
  collect_set-contains x (y ∷ ys) (inl e) =
      subst (λ t. contains eq (insert eq y (collect_set eq ys)) t ≡ true) (sym e)
        (insert-new y (collect_set eq ys))
  collect_set-contains x (y ∷ ys) (inr i) =
      insert-old y x (collect_set eq ys) (collect_set-contains x ys i)

  insert-In : (a x : Text) (xs : List Text) → In x (insert eq a xs) → (x ≡ a) ⊎ In x xs
  unfolding insert
  insert-In a x xs i = elim (Bool-cases (contains eq xs a)) [
    | inl e ↦ inr (rw e at i)
    | inr e ↦ (rw e at i)
  ]

  collect_set-In : (x : Text) (xs : List Text) → In x (collect_set eq xs) → In x xs
  unfolding collect_set
  collect_set-In x [] i = i
  collect_set-In x (y ∷ ys) i = elim (insert-In y x (collect_set eq ys) i) [
    | inl e ↦ inl e
    | inr j ↦ inr (collect_set-In x ys j)
  ]

  -- A set collected from the same values, in any order, is the same set.
  pub set_eq-collect_set :
      (xs ys : List Text)
      → ((u : Text) → In u xs ↔ In u ys)
      → set_eq eq (collect_set eq xs) ys ≡ true
  unfolding set_eq contains
  set_eq-collect_set xs ys h =
      let a =
        In→all (contains eq ys) (collect_set eq xs)
          (λ x i. In→any (eq x) ys x ((h x).0 (collect_set-In x xs i)) (eq_refl x)) in
      let b =
        In→all (contains eq (collect_set eq xs)) ys
          (λ y i. collect_set-contains y xs ((h y).1 i)) in
      rw (a, b) refl
