-- ===== src/Sids/TransformLaws.antt =====
-- The matrix of a transform of a structured join is orthogonal.
use maia.Base.{
  ℕ, zero, suc, ◌+◌, ◌*◌, ◌<◌, ◌≤◌, ◌==◌, ◌≡◌, refl, ap, ◌∙◌, List, [], ◌∷◌, if◌then◌else◌, map,
  length, false, get_or, range, Bool-cases, inl, inr, arith, suc,
}
use maia.Base.Int.{ℤ, pos, negsuc, ◌+ℤ◌}
use maia.Sids.GridConnectivity.{magnitude, sign, coefficient, matrix_of}

-- Products of the numbers -1, 0 and 1, and of others.
abbrev pub negated : ℕ → ℤ
negated zero = pos 0
negated (suc n) = negsuc n

abbrev pub times : ℤ → ℤ → ℤ
times (pos a) (pos b) = pos (a * b)
times (pos a) (negsuc b) = negated (a * suc b)
times (negsuc a) (pos b) = negated (suc a * b)
times (negsuc a) (negsuc b) = pos (suc a * suc b)

abbrev pub dot : List ℤ → List ℤ → ℤ
dot [] ys = pos 0
dot (x ∷ xs) [] = pos 0
dot (x ∷ xs) (y ∷ ys) = times x y +ℤ dot xs ys

-- How many entries have the magnitude.
abbrev pub how_many : ℕ → List ℤ → ℕ
how_many k [] = 0
how_many k (x ∷ xs) = (if magnitude x == k then 1 else 0) + how_many k xs

-- The product of a number of -1, 0 or 1 with itself.
square : (x : ℤ) (k : ℕ) → magnitude x ≡ k + 1 → times (sign x) (sign x) ≡ pos 1
square (pos zero) k h = absurd (omega (arith, h))
square (pos (suc n)) k h = refl
square (negsuc n) k h = refl

times_zero : (x : ℤ) → times x (pos 0) ≡ pos 0
times_zero (pos n) = let e : n * 0 ≡ 0 = omega arith in rw e refl
times_zero (negsuc n) = let e : suc n * 0 ≡ 0 = omega arith in rw e refl

zero_times : (x : ℤ) → times (pos 0) x ≡ pos 0
zero_times (pos n) = let e : 0 * n ≡ 0 = omega arith in rw e refl
zero_times (negsuc n) = let e : 0 * suc n ≡ 0 = omega arith in rw e refl

times_same :
    (k : ℕ) (x : ℤ)
    → times (coefficient (k + 1) x) (coefficient (k + 1) x)
      ≡ pos (if magnitude x == k + 1 then 1 else 0)
times_same k x = elim (Bool-cases (magnitude x == k + 1)) [
  | inl h ↦ rw h (square x k (grind arith))
  | inr h ↦ rw h refl
]

times_other :
    (j k : ℕ) (x : ℤ) → ¬ (j ≡ k) → times (coefficient (j + 1) x) (coefficient (k + 1) x) ≡ pos 0
times_other j k x other = elim (Bool-cases (magnitude x == j + 1)) [
  | inl h ↦ elim (Bool-cases (magnitude x == k + 1)) [
    | inl g ↦ absurd (other (grind arith))
    | inr g ↦ rw g (times_zero (coefficient (j + 1) x))
  ]
  | inr h ↦ rw h (zero_times (coefficient (k + 1) x))
]

dot_same :
    (k : ℕ) (t : List ℤ)
    → dot (map (coefficient (k + 1)) t) (map (coefficient (k + 1)) t) ≡ pos (how_many (k + 1) t)
dot_same k [] = refl
dot_same k (x ∷ t) = rw (times_same k x, dot_same k t) refl

dot_other :
    (j k : ℕ) (t : List ℤ)
    → ¬ (j ≡ k)
    → dot (map (coefficient (j + 1)) t) (map (coefficient (k + 1)) t) ≡ pos 0
dot_other j k [] other = refl
dot_other j k (x ∷ t) other = rw (times_other j k x other, dot_other j k t other) refl

get_or-map-range :
    (f : ℕ → List ℤ) (start count i : ℕ)
    → i < count
    → (k : ℕ) → start + i ≡ k
    → get_or (map f (range start count)) i [] ≡ f k
get_or-map-range f start zero i h k e = absurd (omega arith)
get_or-map-range f start (suc count) zero h k e = ap f (omega arith)
get_or-map-range f start (suc count) (suc i) h k e =
    get_or-map-range f (suc start) count i (omega arith) k (omega arith)

-- Each direction has one entry, with or without a minus sign.
abbrev pub IsTransform : List ℤ → Type 0
IsTransform t = (k : ℕ) → k < length t → how_many (k + 1) t ≡ 1

abbrev pub row : List ℤ → ℕ → List ℤ
row t k = get_or (matrix_of t) k []

get_or-map :
    (f : ℤ → ℤ) (t : List ℤ) (j : ℕ)
    → j < length t
    → get_or (map f t) j (pos 0) ≡ f (get_or t j (pos 0))
get_or-map f [] j h = absurd (omega arith)
get_or-map f (x ∷ t) zero h = refl
get_or-map f (x ∷ t) (suc j) h = get_or-map f t j (omega arith)

-- The numbers from 1 on.
abbrev pub counting : ℕ → List ℤ
counting n = map (λ k. pos (k + 1)) (range 0 n)

abbrev pub column : List ℤ → ℕ → List ℤ
column t j = map (λ entries. get_or entries j (pos 0)) (matrix_of t)

add_zero : (x : ℤ) → x +ℤ pos 0 ≡ x
add_zero (pos n) = let e : n + 0 ≡ n = omega arith in rw e refl
add_zero (negsuc n) = refl

zero_add : (x : ℤ) → pos 0 +ℤ x ≡ x
zero_add (pos n) = let e : 0 + n ≡ n = omega arith in rw e refl
zero_add (negsuc n) = refl

times-sign : (k : ℕ) (x : ℤ) → magnitude x ≡ k + 1 → times (pos (k + 1)) (sign x) ≡ x
times-sign k (pos zero) h = absurd (omega (arith, h))
times-sign k (pos (suc n)) h = let e : (k + 1) * 1 ≡ suc n = omega (arith, h) in rw e refl
times-sign k (negsuc n) h = let e : (k + 1) * suc 0 ≡ suc n = omega (arith, h) in rw e refl

abbrev weighted : ℤ → ℕ → ℕ → ℤ
weighted x start count =
    dot (map (λ k. pos (k + 1)) (range start count))
      (map (λ k. coefficient (k + 1) x) (range start count))

times_missed :
    (k : ℕ) (x : ℤ)
    → (magnitude x == k + 1) ≡ false
    → times (pos (k + 1)) (coefficient (k + 1) x) ≡ pos 0
times_missed k x e = rw e (times_zero (pos (k + 1)))

weighted_none : (x : ℤ) (start count : ℕ) → magnitude x ≤ start → weighted x start count ≡ pos 0
weighted_none x start zero h = refl
weighted_none x start (suc count) h =
    let e : (magnitude x == start + 1) ≡ false = ground arith in
    rw (times_missed start x e, weighted_none x (suc start) count (omega arith)) refl

weighted_hit :
    (x : ℤ) (start count : ℕ)
    → start < magnitude x
    → magnitude x ≤ start + count
    → weighted x start count ≡ x
weighted_hit x start zero h k = absurd (omega arith)
weighted_hit x start (suc count) h k = elim (Bool-cases (magnitude x == start + 1)) [
  | inl e ↦
      let m : magnitude x ≡ start + 1 = grind arith in
      rw (e, times-sign start x m, weighted_none x (suc start) count (omega arith)) (add_zero x)
  | inr e ↦
      let m : suc start < magnitude x = ground arith in
      rw (times_missed start x e, weighted_hit x (suc start) count m (omega arith)) (zero_add x)
]

column-map :
    (t : List ℤ) (j : ℕ)
    → j < length t
    → (ks : List ℕ)
    → map (λ entries. get_or entries j (pos 0)) (map (λ k. map (coefficient (k + 1)) t) ks)
      ≡ map (λ k. coefficient (k + 1) (get_or t j (pos 0))) ks
column-map t j h [] = refl
column-map t j h (k ∷ ks) = rw (get_or-map (coefficient (k + 1)) t j h, column-map t j h ks) refl

product_of : (x : ℤ) (n : ℕ) → magnitude x ≤ n → weighted x 0 n ≡ x
product_of (pos zero) n h = weighted_none (pos 0) 0 n (omega arith)
product_of (pos (suc m)) n h = weighted_hit (pos (suc m)) 0 n (omega arith) (omega arith)
product_of (negsuc m) n h = weighted_hit (negsuc m) 0 n (omega arith) (omega arith)

-- For a transform that has each direction once, with or without a minus sign, the rows of its matrix
-- are orthogonal, and each has the length 1. An entry that is no direction past the
-- last is what the matrix makes of the row of the numbers from 1 on: the sum of the numbers of the
-- rows, each multiplied by what the row has in the column of the entry.
pub matrix_of-orthogonal :
    (t : List ℤ) (j k : ℕ)
    → IsTransform t
    → j < length t
    → k < length t
    → magnitude (get_or t j (pos 0)) ≤ length t
    → (dot (row t j) (row t k) ≡ pos (if j == k then 1 else 0))
      × (dot (counting (length t)) (column t j) ≡ get_or t j (pos 0))
unfolding matrix_of
matrix_of-orthogonal t j k once g h m =
    let r = λ (i : ℕ) (l : i < length t).
      get_or-map-range (λ k. map (coefficient (k + 1)) t) 0 (length t) i l i (omega arith) in
    (
      rw (r j g, r k h)
          (elim (Bool-cases (j == k)) [
            | inl e ↦ let d : j ≡ k = grind arith in rw (e, d) (dot_same k t ∙ ap pos (once k h))
            | inr e ↦ rw e (dot_other j k t (grind arith))
          ]),
      rw (column-map t j g (range 0 (length t))) (product_of (get_or t j (pos 0)) (length t) m),
    )
