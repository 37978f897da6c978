-- ===== src/Pytree/Walk/NodesIterator.antt =====
-- `NodesIterator` and `RangeLevelNodesIterator` of `maia/pytree/walk/_node_parsers.py`, which
-- yield all matching nodes. A generator is the list of what it yields.
use maia.Base.{
  ℕ, zero, suc, leb, ◌==◌, List, [], ◌∷◌, ◌++◌, Bool, ◌&&◌, Option, none, some, if◌then◌else◌, map,
  yield_if,
}
use mathlib.Core.Option
use maia.Pytree.Node.{Node, node, Children, nil, cons, get_children, size}
use maia.Pytree.Walk.Options.{Sort, Depth, cond1, cond2, in_order, ordered}

module _ {V : Type 0} (s : Sort) (p : Node V → Bool) where
  unfoldable mutual
    -- `_dfs`
    pub dfs_below : Node V → List (Node V)
    dfs_below (node n v cs l) = dfs_children cs

    pub dfs_children : Children V → List (Node V)
    dfs_children nil = []
    dfs_children (cons c cs) = in_order s (yield_if (p c) c ++ dfs_below c) (dfs_children cs)

  unfoldable pub dfs : Node V → List (Node V)
  dfs root = yield_if (p root) root ++ dfs_below root

  -- The loop over the queue. `none` means that the fuel ran out.
  unfoldable pub bfs_loop : ℕ → List (Node V) → Option (List (Node V))
  bfs_loop fuel [] = some []
  bfs_loop zero (n ∷ queue) = none
  bfs_loop (suc fuel) (n ∷ queue) =
      Option.map (λ rest. yield_if (p n) n ++ rest)
        (bfs_loop fuel (queue ++ ordered s (get_children n)))

  unfoldable pub bfs : Node V → Option (List (Node V))
  bfs root = bfs_loop (size root) (root ∷ [])

module _ {V : Type 0} (d : Depth) (s : Sort) (p : Node V → Bool) where
  unfoldable mutual
    -- `_dfs`, where `level` is the level of the children.
    pub range_dfs_below : Node V → ℕ → List (Node V)
    range_dfs_below (node n v cs l) level = range_dfs_children cs level

    pub range_dfs_children : Children V → ℕ → List (Node V)
    range_dfs_children nil level = []
    range_dfs_children (cons c cs) level =
        in_order s
          (yield_if (leb d.low level && p c) c
            ++ (if cond2 d level then range_dfs_below c (suc level) else []))
          (range_dfs_children cs level)

  unfoldable pub range_dfs : Node V → List (Node V)
  range_dfs root =
      yield_if (d.low == 0 && p root) root ++ (if cond1 d then range_dfs_below root 1 else [])

  unfoldable pub range_bfs_loop : ℕ → List (ℕ × Node V) → Option (List (Node V))
  range_bfs_loop fuel [] = some []
  range_bfs_loop zero (n ∷ queue) = none
  range_bfs_loop (suc fuel) ((level, n) ∷ queue) =
      Option.map (λ rest. yield_if (leb d.low level && p n) n ++ rest)
        (range_bfs_loop fuel (
          queue
          ++ (if cond2 d level
              then map (λ c. (suc level, c)) (ordered s (get_children n))
              else [])))

  unfoldable pub range_bfs : Node V → Option (List (Node V))
  range_bfs root = range_bfs_loop (size root) ((0, root) ∷ [])
