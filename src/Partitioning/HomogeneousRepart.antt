-- ===== src/Partitioning/HomogeneousRepart.antt =====
-- `homogeneous_repart` of `maia/factory/partitioning/load_balancing/single_zone_balancing.py`.
use maia.Base.{
  ℕ, zero, suc, ◌+◌, ◌*◌, ◌/◌, ◌%◌, ◌≡◌, ◌≤◌, refl, ap, ◌∙◌, List, [], ◌∷◌, length, replicate,
  arith, length-replicate,
}
use maia.Base.Result.{Result, ok, raised, zero_division_error}
use maia.Utils.Lists.{sum}

-- `zone_repart[:remainder] += 1`
unfoldable pub add_one : ℕ → List ℕ → List ℕ
add_one zero ns = ns
add_one (suc k) [] = []
add_one (suc k) (n ∷ ns) = (n + 1) ∷ add_one k ns

unfoldable pub homogeneous_repart : ℕ → ℕ → Result (List ℕ)
unfolding add_one
homogeneous_repart n_elem_zone zero = raised zero_division_error
homogeneous_repart n_elem_zone (suc n) =
    let n_part = suc n in
    let step = n_elem_zone / n_part in
    let remainder = n_elem_zone % n_part in ok (add_one remainder (replicate n_part step))

length-add_one : (k : ℕ) (ns : List ℕ) → length (add_one k ns) ≡ length ns
unfolding add_one
length-add_one zero ns = refl
length-add_one (suc k) [] = refl
length-add_one (suc k) (n ∷ ns) = ap suc (length-add_one k ns)

sum-replicate : (n step : ℕ) → sum (replicate n step) ≡ n * step
sum-replicate zero step = omega arith
sum-replicate (suc n) step = omega (arith, sum-replicate n step)

sum-add_one : (k : ℕ) (ns : List ℕ) → k ≤ length ns → sum (add_one k ns) ≡ sum ns + k
unfolding add_one
sum-add_one zero ns h = omega arith
sum-add_one (suc k) [] h = omega arith
sum-add_one (suc k) (n ∷ ns) h = let e = sum-add_one k ns (omega arith) in omega arith

-- Every part has one of two sizes that follow one another.
abbrev pub AreAlmost : ℕ → List ℕ → Type 0
AreAlmost step [] = Unit
AreAlmost step (n ∷ ns) = (step ≤ n) × (n ≤ step + 1) × AreAlmost step ns

replicate-AreAlmost : (n step : ℕ) → AreAlmost step (replicate n step)
replicate-AreAlmost zero step = tt
replicate-AreAlmost (suc n) step = (omega arith, omega arith, replicate-AreAlmost n step)

add_one-AreAlmost : (k n step : ℕ) → AreAlmost step (add_one k (replicate n step))
unfolding add_one
add_one-AreAlmost zero n step = replicate-AreAlmost n step
add_one-AreAlmost (suc k) zero step = tt
add_one-AreAlmost (suc k) (suc n) step = (omega arith, omega arith, add_one-AreAlmost k n step)

-- A zone is split into as many parts as asked for, if that is not none. Their sizes differ by one at
-- most, and sum up to that of the zone.
homogeneous_repart_lem :
    (n_elem_zone n : ℕ)
    → (parts : List ℕ) × (homogeneous_repart n_elem_zone (suc n) ≡ ok parts)
      × (length parts ≡ suc n)
      × (sum parts ≡ n_elem_zone)
      × AreAlmost (n_elem_zone / suc n) parts
unfolding homogeneous_repart
homogeneous_repart_lem n_elem_zone n =
    let step = n_elem_zone / suc n in
    let k = n_elem_zone % suc n in
    let l = length-replicate (suc n) step in
    (
      add_one k (replicate (suc n) step),
      refl,
      length-add_one k (replicate (suc n) step) ∙ l,
      (let s = sum-add_one k (replicate (suc n) step) (omega arith) in
          let r = sum-replicate (suc n) step in omega arith),
      add_one-AreAlmost k (suc n) step,
    )
