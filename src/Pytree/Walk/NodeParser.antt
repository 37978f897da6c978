-- ===== src/Pytree/Walk/NodeParser.antt =====
-- `NodeParser` and `RangeLevelNodeParser` of `maia/pytree/walk/_node_parsers.py`, which return the
-- first matching node, or `None`.
use maia.Base.{
  ℕ, zero, suc, leb, ◌==◌, List, [], ◌∷◌, ◌++◌, Bool, ◌&&◌, Option, none, some, if◌then◌else◌, map,
}
use maia.Pytree.Node.{Node, node, Children, nil, cons, get_children, size}
use maia.Pytree.Walk.Options.{Sort, Depth, cond1, cond2, first_of, ordered}

-- A search that runs on fuel: it ran out, or it returns what it found.
pub data Search (V : Type 0) : Type 0 where
  out_of_fuel : Search V
  returns : Option (Node V) → Search V

module _ {V : Type 0} (s : Sort) (p : Node V → Bool) where
  unfoldable mutual
    -- `_dfs`
    pub find_below : Node V → Option (Node V)
    find_below (node n v cs l) = find_children cs

    pub find_children : Children V → Option (Node V)
    find_children nil = none
    find_children (cons c cs) = first_of s (if p c then some c else find_below c) (find_children cs)

  unfoldable pub find_dfs : Node V → Option (Node V)
  find_dfs root = if p root then some root else find_below root

  unfoldable pub find_bfs_loop : ℕ → List (Node V) → Search V
  find_bfs_loop fuel [] = returns none
  find_bfs_loop zero (n ∷ queue) = out_of_fuel
  find_bfs_loop (suc fuel) (n ∷ queue) =
      let rest = find_bfs_loop fuel (queue ++ ordered s (get_children n)) in
      if p n then returns (some n) else rest

  unfoldable pub find_bfs : Node V → Search V
  find_bfs root = find_bfs_loop (size root) (root ∷ [])

module _ {V : Type 0} (d : Depth) (s : Sort) (p : Node V → Bool) where
  unfoldable mutual
    pub range_find_below : Node V → ℕ → Option (Node V)
    range_find_below (node n v cs l) level = range_find_children cs level

    pub range_find_children : Children V → ℕ → Option (Node V)
    range_find_children nil level = none
    range_find_children (cons c cs) level =
        first_of s
          (if leb d.low level && p c
            then some c
            else if cond2 d level
            then range_find_below c (suc level)
            else none)
          (range_find_children cs level)

  unfoldable pub range_find_dfs : Node V → Option (Node V)
  range_find_dfs root =
      if d.low == 0 && p root then some root else if cond1 d then range_find_below root 1 else none

  unfoldable pub range_find_bfs_loop : ℕ → List (ℕ × Node V) → Search V
  range_find_bfs_loop fuel [] = returns none
  range_find_bfs_loop zero (n ∷ queue) = out_of_fuel
  range_find_bfs_loop (suc fuel) ((level, n) ∷ queue) =
      let rest = range_find_bfs_loop fuel (
        queue
        ++ (if cond2 d level
            then map (λ c. (suc level, c)) (ordered s (get_children n))
            else [])) in
      if leb d.low level && p n then returns (some n) else rest

  unfoldable pub range_find_bfs : Node V → Search V
  range_find_bfs root = range_find_bfs_loop (size root) ((0, root) ∷ [])
