-- ===== src/Partitioning/SplitBlock.antt =====
-- `maia/factory/partitioning/split_S/split_cut_tree.py`: the bounds of the parts of a structured block
-- without weights, and of a line.
use maia.Base.{
  ℕ, zero, suc, ◌+◌, ◌-◌, ltb, List, [], ◌∷◌, ◌++◌, Bool, Option, some, if◌then◌else◌, length,
  get_or, map, range, replicate, take,
}
use mathlib.Core.Option
use maia.Base.Result.{Result, ok, raised, assertion_error, stop_iteration, ◌>>=◌}
use maia.Partitioning.CutTree.{Cut, Dims, children, init_cut_tree, sum_leaves, refine_cut_tree}
use maia.Utils.Lists.{sum}

-- `[start, end]` in each direction.
abbrev pub Part : Type 0
Part = List (ℕ × ℕ)

-- What the code does with floats: the quotient of two integers, the sum of a list, and
-- `int(weight*dim+0.5)`.
pub record Floats : Type 1 where
  pub Float : Type 0
  pub quotient : ℕ → ℕ → Float
  pub total : List Float → Float
  pub nearest : Float → ℕ → ℕ

module _ (floats : Floats) where
  -- `x_splits`, from `x_weights`: the place of each of the `count + 1` cuts.
  unfoldable pub splits : ℕ → ℕ → List floats.Float → List ℕ
  splits count dim weights =
      map (λ i. floats.nearest (floats.total (take i weights)) dim) (range 0 (suc count))

  -- `part = [[x_splits[i], x_splits[i+1]]] + sub` for each of the parts under the place `i`.
  abbrev pub with_interval : List ℕ → ℕ → List Part → List Part
  with_interval cuts i subs = map (λ sub. (get_or cuts i 0, get_or cuts (suc i) 0) ∷ sub) subs

  -- The loop over the children, from the place `i` on.
  unfoldable pub over_children : {A : Type 0} → (A → List Part) → List ℕ → ℕ → List A → List Part
  over_children parts_of cuts i [] = []
  over_children parts_of cuts i (c ∷ cs) =
      with_interval cuts i (parts_of c) ++ over_children parts_of cuts (suc i) cs

  -- The loop over the cuts of the last direction.
  unfoldable pub last_parts : ℕ → ℕ → List Part
  unfolding splits
  last_parts dim n_y_splits =
      let y_splits = splits n_y_splits dim (replicate n_y_splits (floats.quotient 1 n_y_splits)) in
      map (λ j. (get_or y_splits j 0, get_or y_splits (suc j) 0) ∷ []) (range 0 n_y_splits)

  -- `bct_to_partitions_bounds` without a weighted tree, for two directions or more.
  unfoldable pub bct_to_partitions_bounds : (d : ℕ) → Dims (suc d) → Cut (suc d) → List Part
  unfolding splits over_children last_parts sum_leaves
  bct_to_partitions_bounds zero (dim, dims) t =
      let x_weights = map (λ c. floats.quotient (sum_leaves 0 c) (sum_leaves 1 t)) (children t) in
      over_children (last_parts dims) (splits (length (children t)) dim x_weights) 0 (children t)
  bct_to_partitions_bounds (suc d) (dim, dims) t =
      let x_weights =
        map (λ c. floats.quotient (sum_leaves (suc d) c) (sum_leaves (suc (suc d)) t))
          (children t) in
      over_children (bct_to_partitions_bounds d dims) (splits (length (children t)) dim x_weights) 0
        (children t)

  module _ (less : ℕ × ℕ → ℕ × ℕ → Bool) where
    -- `n_parts - 1` refinements.
    unfoldable pub refinements : (d : ℕ) → Dims d → ℕ → Cut d → Option (Cut d)
    unfolding refine_cut_tree
    refinements d dims zero t = some t
    refinements d dims (suc n) t =
        Option.bind (refine_cut_tree less d dims t) (refinements d dims n)

    -- `split_S_block` without weights. Out of fuel there is no answer.
    unfoldable pub split_s_block : (d : ℕ) → Dims (suc d) → ℕ → Option (List Part)
    unfolding refinements bct_to_partitions_bounds init_cut_tree
    split_s_block d dims n_parts =
        Option.bind (refinements (suc d) dims (n_parts - 1) (init_cut_tree (suc d)))
          (λ t. some (bct_to_partitions_bounds d dims t))

-- `n_cell[next(it)] += 1`, with the next place `i` of the cycle.
abbrev pub increase : ℕ → List ℕ → List ℕ
increase i [] = []
increase zero (n ∷ ns) = (n + 1) ∷ ns
increase (suc i) (n ∷ ns) = n ∷ increase i ns

-- The `while`, with the next place `i` of the cycle. The cycle of no place stops at once.
unfoldable pub share : ℕ → ℕ → List ℕ → Result (List ℕ)
share zero i ns = ok ns
share (suc remainder) i [] = raised stop_iteration
share (suc remainder) i (n ∷ ns) =
    share remainder (if ltb (suc i) (suc (length ns)) then suc i else 0) (increase i (n ∷ ns))

-- `[[last, last+nc]]` for each number of cells.
unfoldable pub intervals : ℕ → List ℕ → List Part
intervals last [] = []
intervals last (nc ∷ ncs) = ((last, last + nc) ∷ []) ∷ intervals (last + nc) ncs

-- `split_S_line`, from `n_cell`, the array `np.floor(weights*dim)`.
unfoldable pub split_s_line : ℕ → List ℕ → Result (List Part)
unfolding share intervals
split_s_line dim n_cell =
    if ltb dim (sum n_cell)
    then raised assertion_error
    else (share (dim - sum n_cell) 0 n_cell >>= λ ns. ok (intervals 0 ns))
