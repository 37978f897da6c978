-- ===== src/Pytree/Walk/ShallowIterator.antt =====
-- `ShallowNodesIterator` and `ShallowRangeLevelNodesIterator` of
-- `maia/pytree/walk/_node_parsers.py`, which do not look under a child that matches.
use maia.Base.{
  ℕ, zero, suc, leb, ◌==◌, List, [], ◌∷◌, ◌++◌, Bool, ◌&&◌, Option, none, some, if◌then◌else◌, map,
  yield_if,
}
use mathlib.Core.Option
use maia.Pytree.Node.{Node, node, Children, nil, cons, get_children, size}
use maia.Pytree.Walk.Options.{Sort, Depth, cond1, cond2, in_order, ordered}

module _ {V : Type 0} (s : Sort) (p : Node V → Bool) where
  unfoldable mutual
    -- `_dfs`
    pub shallow_dfs_below : Node V → List (Node V)
    shallow_dfs_below (node n v cs l) = shallow_dfs_children cs

    pub shallow_dfs_children : Children V → List (Node V)
    shallow_dfs_children nil = []
    shallow_dfs_children (cons c cs) =
        in_order s (if p c then c ∷ [] else shallow_dfs_below c) (shallow_dfs_children cs)

  -- The `dfs` of the base class: it goes on under the root, whether or not the root matches.
  unfoldable pub shallow_dfs : Node V → List (Node V)
  shallow_dfs root = yield_if (p root) root ++ shallow_dfs_below root

  unfoldable pub shallow_bfs_loop : ℕ → List (Node V) → Option (List (Node V))
  shallow_bfs_loop fuel [] = some []
  shallow_bfs_loop zero (n ∷ queue) = none
  shallow_bfs_loop (suc fuel) (n ∷ queue) =
      Option.map (λ rest. yield_if (p n) n ++ rest)
        (shallow_bfs_loop fuel (if p n then queue else queue ++ ordered s (get_children n)))

  unfoldable pub shallow_bfs : Node V → Option (List (Node V))
  shallow_bfs root = shallow_bfs_loop (size root) (root ∷ [])

module _ {V : Type 0} (d : Depth) (s : Sort) (p : Node V → Bool) where
  unfoldable mutual
    pub shallow_range_dfs_below : Node V → ℕ → List (Node V)
    shallow_range_dfs_below (node n v cs l) level = shallow_range_dfs_children cs level

    pub shallow_range_dfs_children : Children V → ℕ → List (Node V)
    shallow_range_dfs_children nil level = []
    shallow_range_dfs_children (cons c cs) level =
        in_order s
          (if leb d.low level && p c
            then c ∷ []
            else if cond2 d level
            then shallow_range_dfs_below c (suc level)
            else [])
          (shallow_range_dfs_children cs level)

  unfoldable pub shallow_range_dfs : Node V → List (Node V)
  shallow_range_dfs root =
      yield_if (d.low == 0 && p root) root
      ++ (if cond1 d then shallow_range_dfs_below root 1 else [])

  unfoldable pub shallow_range_bfs_loop : ℕ → List (ℕ × Node V) → Option (List (Node V))
  shallow_range_bfs_loop fuel [] = some []
  shallow_range_bfs_loop zero (n ∷ queue) = none
  shallow_range_bfs_loop (suc fuel) ((level, n) ∷ queue) =
      Option.map (λ rest. yield_if (leb d.low level && p n) n ++ rest)
        (shallow_range_bfs_loop fuel (
          if leb d.low level && p n
          then queue
          else if cond2 d level
          then queue ++ map (λ c. (suc level, c)) (ordered s (get_children n))
          else queue))

  unfoldable pub shallow_range_bfs : Node V → Option (List (Node V))
  shallow_range_bfs root = shallow_range_bfs_loop (size root) ((0, root) ∷ [])
