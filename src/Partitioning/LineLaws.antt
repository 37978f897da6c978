-- ===== src/Partitioning/LineLaws.antt =====
-- The parts of a line lie one after the other and cover it.
use maia.Base.{
  ◌⊎◌, inl, inr, Bool-cases, ltb→lt, ℕ, zero, suc, ◌+◌, ◌-◌, ◌≤◌, ◌<◌, ltb, ◌≡◌, refl, sym, ap, ◌∙◌,
  List, [], ◌∷◌, if◌then◌else◌, length, arith,
}
use maia.Base.Result.{ok, raised, assertion_error}
use maia.Partitioning.SplitBlock.{Part, increase, share, intervals, split_s_line}
use maia.Utils.Lists.{sum}

-- The parts follow one another from the one bound to the other.
abbrev pub IsTiling : ℕ → ℕ → List Part → Type 0
IsTiling first last [] = first ≡ last
IsTiling first last ([] ∷ parts) = ⊥
IsTiling first last (((start, end) ∷ []) ∷ parts) =
    (start ≡ first) × (start ≤ end) × IsTiling end last parts
IsTiling first last ((interval ∷ other ∷ part) ∷ parts) = ⊥

length-increase : (i : ℕ) (ns : List ℕ) → length (increase i ns) ≡ length ns
length-increase i [] = refl
length-increase zero (n ∷ ns) = refl
length-increase (suc i) (n ∷ ns) = ap suc (length-increase i ns)

sum-increase : (i : ℕ) (ns : List ℕ) → i < length ns → sum (increase i ns) ≡ suc (sum ns)
sum-increase i [] h = absurd (omega arith)
sum-increase zero (n ∷ ns) h = omega arith
sum-increase (suc i) (n ∷ ns) h = omega (arith, sum-increase i ns (omega arith))

share_total :
    (remainder i : ℕ) (ns : List ℕ)
    → i < length ns
    → (ms : List ℕ) × (share remainder i ns ≡ ok ms)
      × (length ms ≡ length ns)
      × (sum ms ≡ sum ns + remainder)
unfolding share
share_total zero i ns h = (ns, refl, refl, omega arith)
share_total (suc remainder) i [] h = absurd (omega arith)
share_total (suc remainder) i (n ∷ ns) h =
    let l = length-increase i (n ∷ ns) in
    let s = sum-increase i (n ∷ ns) h in
    let next = if ltb (suc i) (suc (length ns)) then suc i else 0 in
    let g : next < length (increase i (n ∷ ns)) = ground arith in
    let (ms, e, k, t) = share_total remainder next (increase i (n ∷ ns)) g in
    (ms, e, k ∙ l, omega arith)

intervals-IsTiling :
    (first : ℕ) (ns : List ℕ) → IsTiling first (first + sum ns) (intervals first ns)
unfolding intervals
intervals-IsTiling first [] = omega arith
intervals-IsTiling first (n ∷ ns) =
    let r = intervals-IsTiling (first + n) ns in
    let e : first + n + sum ns ≡ first + sum (n ∷ ns) = omega arith in
    (refl, omega arith, rw (sym e) r)

whole-IsTiling : (dim : ℕ) (ns : List ℕ) → sum ns ≡ dim → IsTiling 0 dim (intervals 0 ns)
whole-IsTiling dim ns h = let q : dim ≡ 0 + sum ns = omega arith in rw q (intervals-IsTiling 0 ns)

length-intervals : (first : ℕ) (ns : List ℕ) → length (intervals first ns) ≡ length ns
unfolding intervals
length-intervals first [] = refl
length-intervals first (n ∷ ns) = ap suc (length-intervals (first + n) ns)

-- For one weight at least, split_S_line either raises AssertionError, and the rounded shares are more
-- cells together than the line has; or it ends with a part for each weight, and the parts follow one
-- another from the first cell of the line to the last, while the rounded shares are no more cells than
-- the line has.
pub split_s_line_lem :
    (dim n : ℕ) (ns : List ℕ)
    → let n_cell = n ∷ ns in
      (dim < sum n_cell) × (split_s_line dim n_cell ≡ raised assertion_error)
      ⊎ (sum n_cell ≤ dim)
        × (parts : List Part) × (split_s_line dim n_cell ≡ ok parts)
        × (length parts ≡ length n_cell)
        × IsTiling 0 dim parts
unfolding split_s_line
split_s_line_lem dim n ns =
    let n_cell = n ∷ ns in
    elim (Bool-cases (ltb dim (sum n_cell))) [
      | inl e ↦ inl (ltb→lt dim (sum n_cell) e, rw e refl)
      | inr e ↦
          let h : sum n_cell ≤ dim = ground arith in
          let (ms, p, l, s) = share_total (dim - sum n_cell) 0 n_cell (omega arith) in
          inr (
            h,
            intervals 0 ms,
            rw (e, p) refl,
            length-intervals 0 ms ∙ l,
            whole-IsTiling dim ms (omega arith),
          )
    ]
