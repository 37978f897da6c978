-- ===== src/Partitioning/PointRanges.antt =====
-- `intersect_pr` of `maia/factory/partitioning/split_S/part_zone.py`. An array of the shape (n, 2) is
-- the list of its rows.
use maia.Base.{
  ℕ, ◌≤◌, ◌==◌, leb, min, ◌≡◌, refl, List, [], ◌∷◌, true, ◌&&◌, Option, none, some, if◌then◌else◌,
  length, Bool-cases, inl, inr, arith,
}
use mathlib.Core.Option
use maia.Base.Result.{Result, ok, raised, assertion_error}

abbrev pub PointRange : Type 0
PointRange = List (ℕ × ℕ)

-- A turn of the loop: the row of the intersection, or none if the two rows are disjoint.
unfoldable pub intersect_row : ℕ × ℕ → ℕ × ℕ → Option (ℕ × ℕ)
intersect_row (a, b) (c, d) =
    if leb c a && leb a d
    then some (a, min b d)
    else if leb a c && leb c b
    then some (c, min b d)
    else none

unfoldable pub intersect_rows : PointRange → PointRange → Option PointRange
unfolding intersect_row
intersect_rows [] ys = some []
intersect_rows (x ∷ xs) [] = some []
intersect_rows (x ∷ xs) (y ∷ ys) =
    Option.bind (intersect_row x y) (λ z. Option.bind (intersect_rows xs ys) (λ zs. some (z ∷ zs)))

unfoldable pub intersect_pr : PointRange → PointRange → Result (Option PointRange)
unfolding intersect_rows
intersect_pr xs ys =
    if length ys == length xs then ok (intersect_rows xs ys) else raised assertion_error

-- The point lies in the range, which has as many directions.
abbrev pub Contains : PointRange → List ℕ → Type 0
Contains [] [] = Unit
Contains [] (p ∷ point) = ⊥
Contains (x ∷ xs) [] = ⊥
Contains ((a, b) ∷ xs) (p ∷ point) = (a ≤ p) × (p ≤ b) × Contains xs point

-- In no range there is no point.
abbrev pub ContainsAny : Option PointRange → List ℕ → Type 0
ContainsAny none point = ⊥
ContainsAny (some xs) point = Contains xs point

-- What a row of the intersection is.
IsRow : ℕ × ℕ → ℕ × ℕ → Option (ℕ × ℕ) → Type 0
IsRow (a, b) (c, d) none = (p : ℕ) → a ≤ p → p ≤ b → c ≤ p → p ≤ d → ⊥
IsRow (a, b) (c, d) (some (e, f)) =
    (a ≤ e) × (c ≤ e) × ((p : ℕ) → a ≤ p → c ≤ p → e ≤ p) × (f ≡ min b d)

intersect_row-IsRow : (x y : ℕ × ℕ) → IsRow x y (intersect_row x y)
unfolding intersect_row IsRow
intersect_row-IsRow (a, b) (c, d) = elim (Bool-cases (leb c a && leb a d)) [
  | inl h ↦ rw h (omega arith, ground arith, λ p g k. g, refl)
  | inr h ↦ elim (Bool-cases (leb a c && leb c b)) [
    | inl g ↦ rw (h, g) (ground arith, omega arith, λ p k l. l, refl)
    | inr g ↦ rw (h, g) (λ p k l m n. ground arith)
  ]
]

join_row : Option (ℕ × ℕ) → Option PointRange → Option PointRange
join_row row rest = Option.bind row (λ z. Option.bind rest (λ zs. some (z ∷ zs)))

no_point :
    (row : Option (ℕ × ℕ)) (rest : Option PointRange) → ContainsAny (join_row row rest) [] → ⊥
unfolding join_row Option.bind
no_point none rest h = h
no_point (some z) none h = h
no_point (some z) (some zs) h = h

row_forth :
    (x y : ℕ × ℕ) (row : Option (ℕ × ℕ)) (rest : Option PointRange) (p : ℕ) (point : List ℕ)
    → IsRow x y row
    → ContainsAny (join_row row rest) (p ∷ point)
    → (x.0 ≤ p) × (p ≤ x.1) × (y.0 ≤ p) × (p ≤ y.1) × ContainsAny rest point
unfolding join_row IsRow Option.bind
row_forth (a, b) (c, d) none rest p point r h = absurd h
row_forth (a, b) (c, d) (some (e, f)) none p point r h = absurd h
row_forth (a, b) (c, d) (some (e, f)) (some xs) p point r h =
    let u = r.0 in
    let v = r.1 in
    let w = r.3 in
    let k = h.0 in let l = h.1 in (omega arith, omega arith, omega arith, omega arith, h.2)

row_back :
    (x y : ℕ × ℕ) (row : Option (ℕ × ℕ)) (rest : Option PointRange) (p : ℕ) (point : List ℕ)
    → IsRow x y row
    → x.0 ≤ p
    → p ≤ x.1
    → y.0 ≤ p
    → p ≤ y.1
    → ContainsAny rest point
    → ContainsAny (join_row row rest) (p ∷ point)
unfolding join_row IsRow Option.bind
row_back (a, b) (c, d) none rest p point r h k l m n = absurd (r p h k l m)
row_back (a, b) (c, d) (some (e, f)) none p point r h k l m n = absurd n
row_back (a, b) (c, d) (some (e, f)) (some xs) p point r h k l m n =
    let w = r.3 in (r.2 p h l, omega arith, n)

intersect_rows-Contains :
    (xs ys : PointRange) (point : List ℕ)
    → length ys ≡ length xs
    → (ContainsAny (intersect_rows xs ys) point → Contains xs point × Contains ys point)
      × (Contains xs point → Contains ys point → ContainsAny (intersect_rows xs ys) point)
unfolding intersect_rows join_row
intersect_rows-Contains [] [] point e = (λ h. (h, h), λ h k. h)
intersect_rows-Contains [] (y ∷ ys) point e = absurd (omega arith)
intersect_rows-Contains (x ∷ xs) [] point e = absurd (omega arith)
intersect_rows-Contains (x ∷ xs) (y ∷ ys) [] e =
    (λ h. absurd (no_point (intersect_row x y) (intersect_rows xs ys) h), λ h k. absurd h)
intersect_rows-Contains (x ∷ xs) (y ∷ ys) (p ∷ point) e =
    let r = intersect_row-IsRow x y in
    let ih = intersect_rows-Contains xs ys point (omega arith) in
    (
      λ h.
          let f = row_forth x y (intersect_row x y) (intersect_rows xs ys) p point r h in
          let g = ih.0 f.4 in ((f.0, f.1, g.0), (f.2, f.3, g.1)),
      λ h k.
          row_back x y (intersect_row x y) (intersect_rows xs ys) p point r h.0 h.1 k.0 k.1
            (ih.1 h.2 k.2),
    )

-- On ranges of as many directions intersect_pr raises nothing. A point lies in the range that it gives
-- exactly if it lies in both ranges, and it gives None only if no point does.
pub intersect_pr-Contains :
    (xs ys : PointRange)
    → length ys ≡ length xs
    → (r : Option PointRange) × (intersect_pr xs ys ≡ ok r)
      × ((point : List ℕ)
          → (ContainsAny r point → Contains xs point × Contains ys point)
            × (Contains xs point → Contains ys point → ContainsAny r point))
unfolding intersect_pr
intersect_pr-Contains xs ys e =
    let t : (length ys == length xs) ≡ true = ground arith in
    (intersect_rows xs ys, rw t refl, λ point. intersect_rows-Contains xs ys point e)
