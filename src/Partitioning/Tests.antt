-- ===== src/Partitioning/Tests.antt =====
-- Runs of the sharing of zones between processes, and the theorems on it at small inputs.
use maia.Base.{
  ◌/◌, ◌+◌, ℕ, zero, suc, ◌*◌, ◌≤◌, ◌<◌, ltb, ◌≡◌, refl, ap, List, [], ◌∷◌, Bool, Option, some, ◌⊎◌,
  length, map, range, take, arith,
}
use mathlib.Core.Option
use native.Mathlib.Nat.{
  div-eq_of_lt, mul-le-mul_left, mul-le-mul_right, div-mul-le_self, le-div_iff_mul-le,
}
use maia.Numbering.Flat.{div_of_parts}
use maia.Base.Result.{ok, raised, assertion_error}
use maia.Partitioning.CutTree.{Cut, init_cut_tree, sum_leaves, refine_cut_tree}
use maia.Partitioning.CutTreeLaws.{IsFilled, init_cut_tree-IsFilled}
use maia.Partitioning.Refine.{refine_cut_tree_lem}
use maia.Partitioning.SplitBlock.{Part, Floats, split_s_block, split_s_line}
use maia.Partitioning.SplitLaws.{IsRounding, volumes}
use maia.Partitioning.SplitCounts.{split_s_block_lem, volumes-split_s_block}
use maia.Partitioning.PointRanges.{
  PointRange, Contains, ContainsAny, intersect_pr, intersect_pr-Contains,
}
use maia.Partitioning.LineLaws.{IsTiling, split_s_line_lem}
use maia.Partitioning.KarmarkarKarp.{Bins, karmarkar_karp}
use maia.Partitioning.KarmarkarKarpLaws.{largest, karmarkar_karp_lem}
use maia.Partitioning.Spread.{IsRising, count, occurrences}
use maia.Utils.Lists.{sum}

bins_run :
    karmarkar_karp (9 ∷ 4 ∷ 7 ∷ 6 ∷ 8 ∷ 5 ∷ []) 3
    ≡ ok (some ((1 ∷ 0 ∷ []) ∷ (5 ∷ 4 ∷ []) ∷ (3 ∷ 2 ∷ []) ∷ []))
unfolding karmarkar_karp
bins_run = refl

karmarkar_karp_lem_example :
    (bins : Bins) × (karmarkar_karp (9 ∷ 4 ∷ 7 ∷ 6 ∷ 8 ∷ 5 ∷ []) 3 ≡ ok (some bins))
    × (length bins ≡ 3)
    × IsRising (9 ∷ 4 ∷ 7 ∷ 6 ∷ 8 ∷ 5 ∷ []) (largest (9 ∷ 4 ∷ 7 ∷ 6 ∷ 8 ∷ 5 ∷ [])) bins
    × ((j : ℕ) → occurrences j bins ≡ count j (range 0 6))
karmarkar_karp_lem_example = karmarkar_karp_lem 9 (4 ∷ 7 ∷ 6 ∷ 8 ∷ 5 ∷ []) 2

-- Quotients in place of the floats, added under their common denominator and rounded to the nearest.
abbrev numerators : List (ℕ × ℕ) → ℕ
numerators [] = 0
numerators (f ∷ fs) = f.0 + numerators fs

abbrev denominator : List (ℕ × ℕ) → ℕ
denominator [] = 1
denominator (f ∷ fs) = f.1

abbrev quotients : Floats
quotients = record {
  Float = ℕ × ℕ;
  quotient = λ a b. (a, b);
  total = λ fs. (numerators fs, denominator fs);
  nearest = λ f dim. (2 * f.0 * dim + f.1) / (2 * f.1);
}

sum-take : (i : ℕ) (ws : List ℕ) → sum (take i ws) ≤ sum (take (suc i) ws)
sum-take zero ws = omega arith
sum-take (suc i) [] = omega arith
sum-take (suc i) (w ∷ ws) = omega (arith, sum-take i ws)

numerators-take :
    (n i : ℕ) (ns : List ℕ) → numerators (take i (map (λ k. (k, n)) ns)) ≡ sum (take i ns)
numerators-take n zero ns = refl
numerators-take n (suc i) [] = refl
numerators-take n (suc i) (k ∷ ns) = ap (λ m. k + m) (numerators-take n i ns)

numerators-map : (n : ℕ) (ns : List ℕ) → numerators (map (λ k. (k, n)) ns) ≡ sum ns
numerators-map n [] = refl
numerators-map n (k ∷ ns) = ap (λ m. k + m) (numerators-map n ns)

nothing_rounded : (dim : ℕ) → (2 * 0 * dim + 1) / (2 * 1) ≡ 0
nothing_rounded dim = div-eq_of_lt (omega arith)

div_rises : (a b d : ℕ) → 0 < d → a ≤ b → a / d ≤ b / d
div_rises a b d p h = (le-div_iff_mul-le p).1 (omega (arith, div-mul-le_self a d))

quotients_rise :
    (dim i n : ℕ) (ns : List ℕ)
    → 0 < n
    → quotients.nearest (quotients.total (take i (map (λ k. (k, n)) ns))) dim
      ≤ quotients.nearest (quotients.total (take (suc i) (map (λ k. (k, n)) ns))) dim
quotients_rise dim zero n ns p = rw (nothing_rounded dim) (omega arith)
quotients_rise dim (suc i) n [] p = omega arith
quotients_rise dim (suc i) n (k ∷ ns) p =
    let t = sum-take (suc i) (k ∷ ns) in
    let a = numerators-take n (suc i) (k ∷ ns) in
    let b = numerators-take n (suc (suc i)) (k ∷ ns) in
    let m = mul-le-mul_right dim (mul-le-mul_left 2 t) in
    rw (a, b) (div_rises _ _ (2 * n) (omega arith) (omega arith))

quotients-IsRounding : (limit : ℕ) → IsRounding limit quotients
quotients-IsRounding limit dim [] h k l = absurd (omega arith)
quotients-IsRounding limit dim (m ∷ ns) h k l = (
  nothing_rounded dim,
  λ i. quotients_rise dim i (sum (m ∷ ns)) (m ∷ ns) k,
  (let e = numerators-map (sum (m ∷ ns)) (m ∷ ns) in
      let n = sum (m ∷ ns) in
      rw e (div_of_parts (2 * n * dim + n) n dim (2 * n) (omega arith) (omega arith))),
)

-- The comparison of two quotients by their cross products.
abbrev cross_less : ℕ × ℕ → ℕ × ℕ → Bool
cross_less (a, b) (c, d) = ltb (a * d) (c * b)

tree_run :
    Option.bind
      (refine_cut_tree cross_less 2 (8, (4, 2)) (init_cut_tree 2))
      (refine_cut_tree cross_less 2 (8, (4, 2)))
    ≡ some ((1, []), (1, []) ∷ (1, []) ∷ [])
unfolding refine_cut_tree init_cut_tree Option.bind
tree_run = refl

refine_cut_tree_lem_example :
    (u : Cut 2) × (refine_cut_tree cross_less 2 (8, (4, 2)) (init_cut_tree 2) ≡ some u)
    × (sum_leaves 2 u ≡ suc (sum_leaves 2 (init_cut_tree 2)))
    × IsFilled 2 u
refine_cut_tree_lem_example =
    refine_cut_tree_lem cross_less 2 (8, (4, 2)) (init_cut_tree 2) (init_cut_tree-IsFilled 2)

split_s_block_lem_example :
    (parts : List Part) × (split_s_block quotients cross_less 1 (8, (4, 2)) 6 ≡ some parts)
    × (length parts ≡ 6)
split_s_block_lem_example = split_s_block_lem quotients cross_less 1 (8, (4, 2)) 5

volumes-split_s_block_example :
    (parts : List Part) × (split_s_block quotients cross_less 1 (8, (4, 2)) 6 ≡ some parts)
    × (volumes parts ≡ 64)
volumes-split_s_block_example =
    volumes-split_s_block quotients cross_less 100 1 (8, (4, 2)) 5 (quotients-IsRounding 100)
      (omega arith, (omega arith, omega arith)) (omega arith)

line_run :
    split_s_line 10 (3 ∷ 2 ∷ 2 ∷ []) ≡ ok (((0, 4) ∷ []) ∷ ((4, 7) ∷ []) ∷ ((7, 10) ∷ []) ∷ [])
unfolding split_s_line
line_run = refl

split_s_line_lem_example :
    (10 < 7) × (split_s_line 10 (3 ∷ 2 ∷ 2 ∷ []) ≡ raised assertion_error)
    ⊎ (7 ≤ 10)
      × (parts : List Part) × (split_s_line 10 (3 ∷ 2 ∷ 2 ∷ []) ≡ ok parts)
      × (length parts ≡ 3)
      × IsTiling 0 10 parts
split_s_line_lem_example = split_s_line_lem 10 3 (2 ∷ 2 ∷ [])

overlap_run :
    intersect_pr ((1, 5) ∷ (2, 9) ∷ []) ((3, 7) ∷ (1, 4) ∷ []) ≡ ok (some ((3, 5) ∷ (2, 4) ∷ []))
unfolding intersect_pr Option.bind
overlap_run = refl

intersect_pr-Contains_example :
    (r : Option PointRange) × (intersect_pr ((1, 5) ∷ (2, 9) ∷ []) ((3, 7) ∷ (1, 4) ∷ []) ≡ ok r)
    × ((point : List ℕ)
        → (ContainsAny r point
            → Contains ((1, 5) ∷ (2, 9) ∷ []) point × Contains ((3, 7) ∷ (1, 4) ∷ []) point)
          × (Contains ((1, 5) ∷ (2, 9) ∷ []) point
              → Contains ((3, 7) ∷ (1, 4) ∷ []) point
              → ContainsAny r point))
intersect_pr-Contains_example =
    intersect_pr-Contains ((1, 5) ∷ (2, 9) ∷ []) ((3, 7) ∷ (1, 4) ∷ []) refl
