-- ===== src/Pytree/Walk/ShallowBfsLaws.antt =====
-- The shallow breadth-first iterators end, and where they agree with the depth-first ones.
use mathlib.Core.List.{Perm}
use mathlib.Core.Option
use maia.Base.{
  ℕ, zero, suc, ◌<◌, leb, ◌==◌, ◌≡◌, refl, sym, ap, ◌∙◌, List, [], ◌∷◌, ◌++◌, Bool, ◌&&◌, some, map,
  concat, append-nil, yield_if, if◌then◌else◌, arith, Bool-cases, inl, inr,
}
use maia.Pytree.Node.{Node, node, Children, nil, cons, get_children, size}
use maia.Pytree.Walk.Options.{Sort, Depth, cond1, cond2, ordered}
use maia.Pytree.Walk.OrderLaws.{map-in_order, concat-in_order}
use maia.Pytree.Walk.BfsLaws.{children_shrink, entries, entry_cost, entries_shrink}
use maia.Pytree.Walk.ShallowIterator.{
  shallow_dfs_below, shallow_dfs_children, shallow_dfs, shallow_bfs_loop, shallow_bfs,
  shallow_range_dfs_below, shallow_range_dfs_children, shallow_range_dfs, shallow_range_bfs_loop,
  shallow_range_bfs,
}
use maia.Pytree.Walk.Queue.{queue_loop, queue_loop_total, total}

module _ {V : Type 0} (s : Sort) (p : Node V → Bool) where
  -- A node, or if it does not match what the search finds under it.
  abbrev pub topmost_from : Node V → List (Node V)
  topmost_from n = if p n then n ∷ [] else shallow_dfs_below s p n

  abbrev next : Node V → List (Node V)
  next n = if p n then [] else ordered s (get_children n)

  next_shrinks : (n : Node V) → total size (next n) < size n
  unfolding size
  next_shrinks (node n v cs l) = ground (arith, children_shrink s (node n v cs l))

  shallow_dfs_children-concat :
      (cs : Children V) → shallow_dfs_children s p cs ≡ concat (map topmost_from (ordered s cs))
  unfolding shallow_dfs_children
  shallow_dfs_children-concat nil = refl
  shallow_dfs_children-concat (cons c cs) = rw (shallow_dfs_children-concat cs) (
      sym (ap concat (map-in_order s topmost_from (c ∷ []) (ordered s cs)) ∙ concat-in_order s _ _))

  shallow_covers :
      (n : Node V) → topmost_from n ≡ yield_if (p n) n ++ concat (map topmost_from (next n))
  unfolding shallow_dfs_below
  shallow_covers (node n v cs l) = ground (arith, shallow_dfs_children-concat cs)

  shallow_bfs_loop-queue_loop :
      (fuel : ℕ) (queue : List (Node V))
      → shallow_bfs_loop s p fuel queue ≡ queue_loop (λ n. yield_if (p n) n) next fuel queue
  unfolding shallow_bfs_loop queue_loop
  shallow_bfs_loop-queue_loop fuel [] = refl
  shallow_bfs_loop-queue_loop zero (n ∷ queue) = refl
  shallow_bfs_loop-queue_loop (suc fuel) (n ∷ queue) = elim (Bool-cases (p n)) [
    | inl e ↦ rw (e, append-nil) (ap (Option.map _) (shallow_bfs_loop-queue_loop fuel queue))
    | inr e ↦
        rw e (
          ap (Option.map _)
            (shallow_bfs_loop-queue_loop fuel (queue ++ ordered s (get_children n))))
  ]

  -- `ShallowNodesIterator.bfs` ends. It yields the root alone if the root matches; otherwise it
  -- yields the nodes that `dfs` yields, reordered.
  pub shallow_bfs-perm :
      (root : Node V)
      → (r : List (Node V)) × (shallow_bfs s p root ≡ some r)
        × Perm r (if p root then root ∷ [] else shallow_dfs s p root)
  unfolding shallow_bfs shallow_dfs
  shallow_bfs-perm root =
      let (r, e, q) =
        queue_loop_total _ next size topmost_from next_shrinks shallow_covers (size root)
          (root ∷ []) (omega arith) in
      (r, shallow_bfs_loop-queue_loop (size root) (root ∷ []) ∙ e, rw (append-nil, same root) at q)
    where
      same :
          (root : Node V)
          → topmost_from root
            ≡ (if p root then root ∷ [] else yield_if (p root) root ++ shallow_dfs_below s p root)
      same root = ground arith

module _ {V : Type 0} (d : Depth) (s : Sort) (p : Node V → Bool) where
  abbrev test : ℕ × Node V → Bool
  test e = leb d.low e.0 && p e.1

  abbrev pub range_topmost_from : ℕ × Node V → List (Node V)
  range_topmost_from e =
      if test e
      then e.1 ∷ []
      else if cond2 d e.0
      then shallow_range_dfs_below d s p e.1 (suc e.0)
      else []

  abbrev range_next : ℕ × Node V → List (ℕ × Node V)
  range_next e = if test e then [] else if cond2 d e.0 then entries s e.0 e.1 else []

  range_next_shrinks : (e : ℕ × Node V) → total entry_cost (range_next e) < size e.1
  unfolding size
  range_next_shrinks (level, node n v cs l) = ground (arith, entries_shrink s level (node n v cs l))

  shallow_range_dfs_children-concat :
      (cs : Children V) (level : ℕ)
      → shallow_range_dfs_children d s p cs level
        ≡ concat (map range_topmost_from (map (λ c. (level, c)) (ordered s cs)))
  unfolding shallow_range_dfs_children
  shallow_range_dfs_children-concat nil level = refl
  shallow_range_dfs_children-concat (cons c cs) level =
      rw (shallow_range_dfs_children-concat cs level) (
        sym (
          ap (λ (es : List (ℕ × Node V)). concat (map range_topmost_from es))
            (map-in_order s (λ (c : Node V). (level, c)) (c ∷ []) (ordered s cs))
          ∙ ap concat (map-in_order s range_topmost_from ((level, c) ∷ []) _)
          ∙ concat-in_order s _ _))

  range_covers :
      (e : ℕ × Node V)
      → range_topmost_from e
        ≡ yield_if (test e) e.1 ++ concat (map range_topmost_from (range_next e))
  unfolding shallow_range_dfs_below
  range_covers (level, node n v cs l) =
      ground (arith, shallow_range_dfs_children-concat cs (suc level))

  shallow_range_bfs_loop-queue_loop :
      (fuel : ℕ) (queue : List (ℕ × Node V))
      → shallow_range_bfs_loop d s p fuel queue
        ≡ queue_loop (λ e. yield_if (test e) e.1) range_next fuel queue
  unfolding shallow_range_bfs_loop queue_loop
  shallow_range_bfs_loop-queue_loop fuel [] = refl
  shallow_range_bfs_loop-queue_loop zero (e ∷ queue) = refl
  shallow_range_bfs_loop-queue_loop (suc fuel) ((level, n) ∷ queue) =
      ap
        (λ (q : List (ℕ × Node V)).
          Option.map (λ rest. yield_if (test (level, n)) n ++ rest)
            (shallow_range_bfs_loop d s p fuel q))
        (added level n queue)
      ∙ ap (Option.map _) (shallow_range_bfs_loop-queue_loop fuel _)
    where
      added :
          (level : ℕ) (n : Node V) (queue : List (ℕ × Node V))
          → (if test (level, n)
              then queue
              else if cond2 d level
              then queue ++ entries s level n
              else queue)
            ≡ queue ++ range_next (level, n)
      added level n queue = ground (arith, append-nil queue)

  -- `ShallowRangeLevelNodesIterator.bfs` ends. If the root is in the range and matches it yields
  -- the root alone; otherwise it yields the nodes that `dfs` yields, reordered.
  pub shallow_range_bfs-perm :
      (root : Node V)
      → (r : List (Node V)) × (shallow_range_bfs d s p root ≡ some r)
        × Perm r (if d.low == 0 && p root then root ∷ [] else shallow_range_dfs d s p root)
  unfolding shallow_range_bfs
  shallow_range_bfs-perm root =
      let (r, e, q) =
        queue_loop_total _ range_next entry_cost range_topmost_from range_next_shrinks range_covers
          (size root) ((0, root) ∷ []) (omega arith) in
      (
        r,
        shallow_range_bfs_loop-queue_loop (size root) ((0, root) ∷ []) ∙ e,
        rw (append-nil, same root) at q,
      )
    where
      same :
          (root : Node V)
          → range_topmost_from (0, root)
            ≡ (if d.low == 0 && p root then root ∷ [] else shallow_range_dfs d s p root)
      same root = unfold shallow_range_dfs cond1 cond2 in ground arith
