-- ===== src/Pytree/Walk/BfsLaws.antt =====
-- The breadth-first iterators end, and yield the nodes that the depth-first ones yield.
use mathlib.Core.List.{Perm}
use mathlib.Core.Option
use maia.Base.{
  ℕ, zero, suc, ◌<◌, leb, ◌≡◌, refl, sym, ap, ◌∙◌, List, [], ◌∷◌, ◌++◌, Bool, ◌&&◌, some, map,
  concat, append-nil, yield_if, if◌then◌else◌, arith,
}
use maia.Pytree.Node.{Node, node, Children, nil, cons, get_children, size, size_children}
use maia.Pytree.Walk.Options.{Sort, Depth, cond1, cond2, ordered}
use maia.Pytree.Walk.OrderLaws.{map-in_order, concat-in_order, total-in_order}
use maia.Pytree.Walk.NodesIterator.{
  dfs_below, dfs_children, dfs, bfs_loop, bfs, range_dfs_below, range_dfs_children, range_dfs,
  range_bfs_loop, range_bfs,
}
use maia.Pytree.Walk.Queue.{queue_loop, queue_loop_total, total}

module _ {V : Type 0} (s : Sort) where
  total-ordered : (cs : Children V) → total size (ordered s cs) ≡ size_children cs
  unfolding size
  total-ordered nil = refl
  total-ordered (cons c cs) =
      omega (arith, total-in_order s size c (ordered s cs), total-ordered cs)

  pub children_shrink : (n : Node V) → total size (ordered s (get_children n)) < size n
  unfolding size
  children_shrink (node n v cs l) = omega (arith, total-ordered cs)

module _ {V : Type 0} (s : Sort) (p : Node V → Bool) where
  dfs_children-concat :
      (cs : Children V) → dfs_children s p cs ≡ concat (map (dfs s p) (ordered s cs))
  unfolding dfs dfs_children
  dfs_children-concat nil = refl
  dfs_children-concat (cons c cs) =
      rw (dfs_children-concat cs)
        (sym (ap concat (map-in_order s (dfs s p) (c ∷ []) (ordered s cs)) ∙ concat-in_order s _ _))

  dfs_covers :
      (n : Node V)
      → dfs s p n ≡ yield_if (p n) n ++ concat (map (dfs s p) (ordered s (get_children n)))
  dfs_covers (node n v cs l) = rw (← dfs_children-concat cs) (unfold dfs dfs_below in refl)

  bfs_loop-queue_loop :
      (fuel : ℕ) (queue : List (Node V))
      → bfs_loop s p fuel queue
        ≡ queue_loop (λ n. yield_if (p n) n) (λ n. ordered s (get_children n)) fuel queue
  unfolding bfs_loop queue_loop
  bfs_loop-queue_loop fuel [] = refl
  bfs_loop-queue_loop zero (n ∷ queue) = refl
  bfs_loop-queue_loop (suc fuel) (n ∷ queue) = ap (Option.map _) (bfs_loop-queue_loop fuel _)

  -- `NodesIterator.bfs` ends on every tree, and yields the nodes that `dfs` yields, reordered.
  pub bfs-perm-dfs :
      (root : Node V) → (r : List (Node V)) × (bfs s p root ≡ some r) × Perm r (dfs s p root)
  unfolding bfs
  bfs-perm-dfs root =
      let (r, e, q) =
        queue_loop_total _ _ size (dfs s p) (children_shrink s) dfs_covers (size root) (root ∷ [])
          (omega arith) in
      (r, bfs_loop-queue_loop (size root) (root ∷ []) ∙ e, rw append-nil at q)

-- The children of a node, one level further down, as they enter the queue.
abbrev pub entries : {V : Type 0} → Sort → ℕ → Node V → List (ℕ × Node V)
entries s level n = map (λ c. (suc level, c)) (ordered s (get_children n))

abbrev pub entry_cost : {V : Type 0} → ℕ × Node V → ℕ
entry_cost e = size e.1

total-entries :
    {V : Type 0} (level : ℕ) (ns : List (Node V))
    → total entry_cost (map (λ c. (level, c)) ns) ≡ total size ns
total-entries level [] = refl
total-entries level (n ∷ ns) = omega (arith, total-entries level ns)

pub entries_shrink :
    {V : Type 0} (s : Sort) (level : ℕ) (n : Node V) → total entry_cost (entries s level n) < size n
entries_shrink s level n =
    omega (arith, total-entries (suc level) (ordered s (get_children n)), children_shrink s n)

module _ {V : Type 0} (d : Depth) (s : Sort) (p : Node V → Bool) where
  -- What one round of the loop yields and adds, and all that an entry leads to.
  abbrev range_emit : ℕ × Node V → List (Node V)
  range_emit e = yield_if (leb d.low e.0 && p e.1) e.1

  abbrev range_next : ℕ × Node V → List (ℕ × Node V)
  range_next e = if cond2 d e.0 then entries s e.0 e.1 else []

  abbrev range_all : ℕ × Node V → List (Node V)
  range_all e = range_emit e ++ (if cond2 d e.0 then range_dfs_below d s p e.1 (suc e.0) else [])

  range_next_shrinks : (e : ℕ × Node V) → total entry_cost (range_next e) < size e.1
  unfolding size
  range_next_shrinks (level, node n v cs l) = ground (arith, entries_shrink s level (node n v cs l))

  range_dfs_children-concat :
      (cs : Children V) (level : ℕ)
      → range_dfs_children d s p cs level
        ≡ concat (map range_all (map (λ c. (level, c)) (ordered s cs)))
  unfolding range_dfs_children
  range_dfs_children-concat nil level = refl
  range_dfs_children-concat (cons c cs) level = rw (range_dfs_children-concat cs level) (
      sym (
        ap (λ (es : List (ℕ × Node V)). concat (map range_all es))
          (map-in_order s (λ (c : Node V). (level, c)) (c ∷ []) (ordered s cs))
        ∙ ap concat (map-in_order s range_all ((level, c) ∷ []) _)
        ∙ concat-in_order s _ _))

  range_covers :
      (e : ℕ × Node V) → range_all e ≡ range_emit e ++ concat (map range_all (range_next e))
  unfolding range_dfs_below
  range_covers (level, node n v cs l) = ground (arith, range_dfs_children-concat cs (suc level))

  range_bfs_loop-queue_loop :
      (fuel : ℕ) (queue : List (ℕ × Node V))
      → range_bfs_loop d s p fuel queue ≡ queue_loop range_emit range_next fuel queue
  unfolding range_bfs_loop queue_loop
  range_bfs_loop-queue_loop fuel [] = refl
  range_bfs_loop-queue_loop zero (e ∷ queue) = refl
  range_bfs_loop-queue_loop (suc fuel) ((level, n) ∷ queue) =
      ap (Option.map _) (range_bfs_loop-queue_loop fuel _)

  range_all_root : (root : Node V) → range_all (0, root) ≡ range_dfs d s p root
  unfolding range_dfs cond1 cond2
  range_all_root root = ground arith

  -- `RangeLevelNodesIterator.bfs` ends, and yields what its `dfs` yields, reordered.
  pub range_bfs-perm-range_dfs :
      (root : Node V)
      → (r : List (Node V)) × (range_bfs d s p root ≡ some r) × Perm r (range_dfs d s p root)
  unfolding range_bfs
  range_bfs-perm-range_dfs root =
      let (r, e, q) =
        queue_loop_total range_emit range_next entry_cost range_all range_next_shrinks range_covers
          (size root) ((0, root) ∷ []) (omega arith) in
      (
        r,
        range_bfs_loop-queue_loop (size root) ((0, root) ∷ []) ∙ e,
        rw (append-nil, range_all_root) at q,
      )
