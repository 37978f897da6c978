-- ===== src/Pytree/Walk/FindLaws.antt =====
-- The depth-first parsers return the first node that the iterators yield.
use maia.Base.{ℕ, suc, ◌≡◌, refl, Bool, head?, arith}
use maia.Pytree.Node.{Node, node, Children, nil, cons}
use maia.Pytree.Walk.Options.{Sort, Depth}
use maia.Pytree.Walk.OrderLaws.{head?-in_order}
use maia.Pytree.Walk.NodesIterator.{
  dfs_below, dfs_children, dfs, range_dfs_below, range_dfs_children, range_dfs,
}
use maia.Pytree.Walk.NodeParser.{
  find_below, find_children, find_dfs, range_find_below, range_find_children, range_find_dfs,
}

module _ {V : Type 0} (s : Sort) (p : Node V → Bool) where
  mutual
    unfolding find_below dfs_below

    find_below-head? : (c : Node V) → find_below s p c ≡ head? (dfs_below s p c)
    find_below-head? (node n v cs l) = find_children-head? cs

    find_children-head? : (cs : Children V) → find_children s p cs ≡ head? (dfs_children s p cs)
    find_children-head? nil = refl
    find_children-head? (cons c cs) =
        rw (head?-in_order s, find_children-head? cs) (ground (arith, find_below-head? c))

  -- `NodeParser.dfs` returns the first node that `NodesIterator.dfs` yields, and `None` exactly
  -- if that yields nothing.
  pub find_dfs-head? : (root : Node V) → find_dfs s p root ≡ head? (dfs s p root)
  unfolding find_dfs dfs
  find_dfs-head? root = ground (arith, find_below-head? root)

module _ {V : Type 0} (d : Depth) (s : Sort) (p : Node V → Bool) where
  mutual
    unfolding range_find_below range_dfs_below

    range_find_below-head? :
        (c : Node V) (level : ℕ)
        → range_find_below d s p c level ≡ head? (range_dfs_below d s p c level)
    range_find_below-head? (node n v cs l) level = range_find_children-head? cs level

    range_find_children-head? :
        (cs : Children V) (level : ℕ)
        → range_find_children d s p cs level ≡ head? (range_dfs_children d s p cs level)
    range_find_children-head? nil level = refl
    range_find_children-head? (cons c cs) level =
        rw (head?-in_order s, range_find_children-head? cs level)
          (ground (arith, range_find_below-head? c (suc level)))

  -- `RangeLevelNodeParser.dfs` returns the first node that `RangeLevelNodesIterator.dfs` yields.
  pub range_find_dfs-head? :
      (root : Node V) → range_find_dfs d s p root ≡ head? (range_dfs d s p root)
  unfolding range_find_dfs range_dfs
  range_find_dfs-head? root = ground (arith, range_find_below-head? root 1)
