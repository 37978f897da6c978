-- ===== src/Partitioning/SplitCounts.antt =====
-- `split_S_block` gives as many parts as asked for.
use maia.Base.{
  ◌≤◌, ℕ, zero, suc, ◌+◌, ◌-◌, ◌≡◌, refl, ◌∙◌, List, [], ◌∷◌, Bool, some, length, get_or, map,
  range, arith, length-append, length-map, length-range,
}
use mathlib.Core.Option
use maia.Partitioning.CutTree.{Cut, Dims, init_cut_tree, sum_leaves}
use maia.Partitioning.CutTreeLaws.{IsFilled, init_cut_tree-IsFilled, sum_leaves-init_cut_tree}
use maia.Partitioning.Refine.{refine_cut_tree_lem}
use maia.Partitioning.SplitBlock.{
  Part, Floats, splits, with_interval, over_children, last_parts, bct_to_partitions_bounds,
  refinements, split_s_block,
}
use maia.Partitioning.SplitLaws.{
  IsRounding, IsWithin, volumes, n_cells, volumes-bct_to_partitions_bounds,
}
use maia.Utils.Lists.{sum}

module _ (floats : Floats) where
  length-over_children :
      {A : Type 0} (parts_of : A → List Part) (leaves : A → ℕ)
      → ((c : A) → length (parts_of c) ≡ leaves c)
      → (cuts : List ℕ) (i : ℕ) (cs : List A)
      → length (over_children floats parts_of cuts i cs) ≡ sum (map leaves cs)
  unfolding over_children
  length-over_children parts_of leaves h cuts i [] = refl
  length-over_children parts_of leaves h cuts i (c ∷ cs) =
      let a =
        length-append (with_interval floats cuts i (parts_of c))
          (over_children floats parts_of cuts (suc i) cs) in
      let m = length-map (λ sub. (get_or cuts i 0, get_or cuts (suc i) 0) ∷ sub) (parts_of c) in
      let k = h c in let r = length-over_children parts_of leaves h cuts (suc i) cs in omega arith

  length-last_parts : (dim n : ℕ) → length (last_parts floats dim n) ≡ n
  unfolding last_parts
  length-last_parts dim n = length-map _ (range 0 n) ∙ length-range 0 n

  length-bct_to_partitions_bounds :
      (d : ℕ) (dims : Dims (suc d)) (t : Cut (suc d))
      → length (bct_to_partitions_bounds floats d dims t) ≡ sum_leaves (suc d) t
  unfolding bct_to_partitions_bounds sum_leaves
  length-bct_to_partitions_bounds zero (dim, dims) (c, cs) =
      length-over_children (last_parts floats dims) (sum_leaves 0) (length-last_parts dims)
        (splits floats (length (c ∷ cs)) dim
          (map (λ k. floats.quotient (sum_leaves 0 k) (sum_leaves 1 (c, cs))) (c ∷ cs)))
        0 (c ∷ cs)
  length-bct_to_partitions_bounds (suc d) (dim, dims) (c, cs) =
      length-over_children (bct_to_partitions_bounds floats d dims) (sum_leaves (suc d))
        (length-bct_to_partitions_bounds d dims)
        (splits floats (length (c ∷ cs)) dim (
          map (λ k. floats.quotient (sum_leaves (suc d) k) (sum_leaves (suc (suc d)) (c, cs)))
            (c ∷ cs)))
        0 (c ∷ cs)

  module _ (less : ℕ × ℕ → ℕ × ℕ → Bool) where
    refinements_total :
        (d : ℕ) (dims : Dims d) (n : ℕ) (t : Cut d)
        → IsFilled d t
        → (u : Cut d) × (refinements floats less d dims n t ≡ some u)
          × (sum_leaves d u ≡ n + sum_leaves d t)
          × IsFilled d u
    unfolding refinements Option.bind
    refinements_total d dims zero t f = (t, refl, omega arith, f)
    refinements_total d dims (suc n) t f =
        let (u, e, l, g) = refine_cut_tree_lem less d dims t f in
        let (v, p, q, k) = refinements_total d dims n u g in (v, rw e p, omega arith, k)

    -- However the weights of the nodes compare, and whatever the floats are, the splitting of a block of
    -- two directions or more into at least one part ends, and gives as many parts as asked for.
    pub split_s_block_lem :
        (d : ℕ) (dims : Dims (suc d)) (n : ℕ)
        → (parts : List Part) × (split_s_block floats less d dims (suc n) ≡ some parts)
          × (length parts ≡ suc n)
    unfolding split_s_block Option.bind
    split_s_block_lem d dims n =
        let (t, e, l, f) =
          refinements_total (suc d) dims (suc n - 1) (init_cut_tree (suc d))
            (init_cut_tree-IsFilled (suc d)) in
        let s = sum_leaves-init_cut_tree (suc d) in
        let k = length-bct_to_partitions_bounds d dims t in
        (bct_to_partitions_bounds floats d dims t, rw e refl, omega arith)

    -- Where the numbers of cells in the directions and the number of parts are under a limit, up to which
    -- the rounded sums of shares rise from 0 to the number of cells, the volumes of the parts into which
    -- a block is split add up to that of the block.
    pub volumes-split_s_block :
        (limit d : ℕ) (dims : Dims (suc d)) (n : ℕ)
        → IsRounding limit floats
        → IsWithin limit (suc d) dims
        → suc n ≤ limit
        → (parts : List Part) × (split_s_block floats less d dims (suc n) ≡ some parts)
          × (volumes parts ≡ n_cells (suc d) dims)
    unfolding split_s_block Option.bind
    volumes-split_s_block limit d dims n rounding w h =
        let (t, e, l, f) =
          refinements_total (suc d) dims (suc n - 1) (init_cut_tree (suc d))
            (init_cut_tree-IsFilled (suc d)) in
        let s = sum_leaves-init_cut_tree (suc d) in
        (
          bct_to_partitions_bounds floats d dims t,
          rw e refl,
          volumes-bct_to_partitions_bounds floats limit rounding d dims t w f (omega arith),
        )
