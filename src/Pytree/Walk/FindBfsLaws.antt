-- ===== src/Pytree/Walk/FindBfsLaws.antt =====
-- The breadth-first parsers return the first node that the breadth-first iterators yield.
use mathlib.Core.Option
use maia.Base.{
  ℕ, zero, suc, leb, ◌≡◌, List, [], ◌∷◌, ◌++◌, Bool, ◌&&◌, Option, none, some, head?, yield_if,
  if◌then◌else◌, arith, map,
}
use maia.Pytree.Node.{Node, get_children}
use maia.Pytree.Walk.Options.{Sort, Depth, cond2, ordered}
use maia.Pytree.Walk.NodesIterator.{bfs_loop, bfs, range_bfs_loop, range_bfs}
use maia.Pytree.Walk.BfsLaws.{bfs-perm-dfs, range_bfs-perm-range_dfs}
use maia.Pytree.Walk.NodeParser.{
  returns, find_bfs_loop, find_bfs, range_find_bfs_loop, range_find_bfs,
}

module _ {V : Type 0} (s : Sort) (p : Node V → Bool) where
  find_bfs_loop-head? :
      (fuel : ℕ) (queue : List (Node V)) {r : List (Node V)}
      → bfs_loop s p fuel queue ≡ some r
      → find_bfs_loop s p fuel queue ≡ returns (head? r)
  unfolding bfs_loop find_bfs_loop
  find_bfs_loop-head? fuel [] h = ground arith
  find_bfs_loop-head? zero (n ∷ queue) h = cc
  find_bfs_loop-head? (suc fuel) (n ∷ queue) {r} h =
      go (bfs_loop s p fuel (queue ++ ordered s (get_children n))) h
        (λ q e. find_bfs_loop-head? fuel (queue ++ ordered s (get_children n)) e)
    where
      go :
          (o : Option (List (Node V)))
          → Option.map (λ rest. yield_if (p n) n ++ rest) o ≡ some r
          → ((q : List (Node V))
              → o ≡ some q
              → find_bfs_loop s p fuel (queue ++ ordered s (get_children n)) ≡ returns (head? q))
          → (if p n
              then returns (some n)
              else find_bfs_loop s p fuel (queue ++ ordered s (get_children n)))
            ≡ returns (head? r)
      go none h ih = cc
      go (some q) h ih = ground (arith, ih q)

  -- `NodeParser.bfs` ends, and returns the first node that `NodesIterator.bfs` yields, and `None`
  -- exactly if that yields nothing.
  pub find_bfs-head? :
      (root : Node V)
      → (r : List (Node V)) × (bfs s p root ≡ some r) × (find_bfs s p root ≡ returns (head? r))
  unfolding find_bfs bfs
  find_bfs-head? root = let (r, e, q) = bfs-perm-dfs s p root in (r, e, find_bfs_loop-head? _ _ e)

module _ {V : Type 0} (d : Depth) (s : Sort) (p : Node V → Bool) where
  range_find_bfs_loop-head? :
      (fuel : ℕ) (queue : List (ℕ × Node V)) {r : List (Node V)}
      → range_bfs_loop d s p fuel queue ≡ some r
      → range_find_bfs_loop d s p fuel queue ≡ returns (head? r)
  unfolding range_bfs_loop range_find_bfs_loop
  range_find_bfs_loop-head? fuel [] h = ground arith
  range_find_bfs_loop-head? zero (n ∷ queue) h = cc
  range_find_bfs_loop-head? (suc fuel) ((level, n) ∷ queue) {r} h =
      go (range_bfs_loop d s p fuel added) h (λ q e.
        range_find_bfs_loop-head? fuel
          (queue
            ++ (if cond2 d level
                then map (λ c. (suc level, c)) (ordered s (get_children n))
                else []))
          e)
    where
      added : List (ℕ × Node V)
      added =
          queue
          ++ (if cond2 d level then map (λ c. (suc level, c)) (ordered s (get_children n)) else [])

      go :
          (o : Option (List (Node V)))
          → Option.map (λ rest. yield_if (leb d.low level && p n) n ++ rest) o ≡ some r
          → ((q : List (Node V))
              → o ≡ some q
              → range_find_bfs_loop d s p fuel added ≡ returns (head? q))
          → (if leb d.low level && p n
              then returns (some n)
              else range_find_bfs_loop d s p fuel added)
            ≡ returns (head? r)
      go none h ih = cc
      go (some q) h ih = ground (arith, ih q)

  -- `RangeLevelNodeParser.bfs` ends, and returns the first node of `RangeLevelNodesIterator.bfs`.
  pub range_find_bfs-head? :
      (root : Node V)
      → (r : List (Node V)) × (range_bfs d s p root ≡ some r)
        × (range_find_bfs d s p root ≡ returns (head? r))
  unfolding range_find_bfs range_bfs
  range_find_bfs-head? root =
      let (r, e, q) = range_bfs-perm-range_dfs d s p root in (r, e, range_find_bfs_loop-head? _ _ e)
