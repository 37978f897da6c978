-- ===== src/Pytree/Remove/Deep.antt =====
-- What is left after the removals that go through the whole tree, or through its first levels.
use maia.Base.{
  ℕ, suc, ◌<◌, ltb, ◌≡◌, refl, ap, ◌∙◌, [], Bool, Option, none, some, if◌then◌else◌, arith,
  Bool-cases, inl, inr, Text,
}
use maia.Pytree.Node.{Node, node, Children, nil, cons}
use maia.Pytree.Walk.Options.{Sort, Depth, cond2}
use maia.Pytree.Walk.OrderLaws.{in_order-nil}
use maia.Pytree.Walk.NodesIterator.{
  dfs_below, dfs_children, range_dfs_below, range_dfs_children, range_dfs,
}
use maia.Pytree.Remove.{
  rm_nodes_unlimited, rm_in_each, rm_nodes_with_level, rm_in_each_with_level, rm_nodes,
}
use maia.Pytree.Remove.Laws.{keep_unmatched, delete_each-keep}

cond2_levels :
    (depth level : ℕ) → cond2 (record { low = 1; high = some depth }) level ≡ ltb level depth
unfolding cond2
cond2_levels depth level = refl

module _ {V : Type 0} (p : Node V → Bool) where
  -- The tree without the matching nodes and all that stands under them.
  unfoldable mutual
    pub prune : Node V → Node V
    prune (node n v cs l) = node n v (prune_each cs) l

    pub prune_each : Children V → Children V
    prune_each nil = nil
    prune_each (cons c cs) = let rest = prune_each cs in if p c then rest else cons (prune c) rest

  mutual
    unfolding rm_nodes_unlimited prune keep_unmatched

    -- `rm_nodes_from_predicate__` prunes the tree: a matching node goes with all under it.
    rm_nodes_unlimited-prune_lem : (c : Node V) → rm_nodes_unlimited p c ≡ prune c
    rm_nodes_unlimited-prune_lem (node n v cs l) =
        ap (λ (ds : Children V). node n v ds l)
          (delete_each-keep p cs (rm_in_each p cs) ∙ keep_unmatched-rm_in_each cs)

    keep_unmatched-rm_in_each :
        (cs : Children V) → keep_unmatched p cs (rm_in_each p cs) ≡ prune_each cs
    keep_unmatched-rm_in_each nil = refl
    keep_unmatched-rm_in_each (cons c cs) =
        ground (arith, rm_nodes_unlimited-prune_lem c, keep_unmatched-rm_in_each cs)

  -- `rm_nodes_from_predicate` without a depth takes away the matching nodes under the root and all
  -- that stands under them, and leaves the rest as it was, in order.
  pub rm_nodes-prune : (root : Node V) → rm_nodes p none root ≡ prune root
  unfolding rm_nodes
  rm_nodes-prune root = rm_nodes_unlimited-prune_lem root

  -- The test looks at a node's own name, value and label only.
  abbrev pub IgnoresChildren : Type 0
  IgnoresChildren =
      (n : Text) (v : Option V) (cs ds : Children V) (l : Text)
      → p (node n v cs l) ≡ p (node n v ds l)

  prune-same_test : IgnoresChildren → (c : Node V) → p (prune c) ≡ p c
  unfolding prune
  prune-same_test i (node n v cs l) = i n v _ cs l

  mutual
    unfolding dfs_below prune

    dfs_below-prune : IgnoresChildren → (s : Sort) (c : Node V) → dfs_below s p (prune c) ≡ []
    dfs_below-prune i s (node n v cs l) = dfs_children-prune_each i s cs

    dfs_children-prune_each :
        IgnoresChildren → (s : Sort) (cs : Children V) → dfs_children s p (prune_each cs) ≡ []
    dfs_children-prune_each i s nil = refl
    dfs_children-prune_each i s (cons c cs) = elim (Bool-cases (p c)) [
      | inl e ↦ rw e (dfs_children-prune_each i s cs)
      | inr e ↦
          rw (e, prune-same_test i c, e, dfs_below-prune i s c, dfs_children-prune_each i s cs)
            (in_order-nil s)
    ]

  -- After `rm_nodes_from_predicate` without a depth no node under the root matches, if the test
  -- looks at a node's own name, value and label only.
  rm_nodes-none_left :
      IgnoresChildren → (s : Sort) (root : Node V) → dfs_below s p (rm_nodes p none root) ≡ []
  unfolding rm_nodes
  rm_nodes-none_left i s root = rw (rm_nodes_unlimited-prune_lem root) (dfs_below-prune i s root)

  -- The same down to a level: `level` is that of the children.
  unfoldable mutual
    pub prune_to : ℕ → Node V → ℕ → Node V
    prune_to depth (node n v cs l) level = node n v (prune_each_to depth cs level) l

    pub prune_each_to : ℕ → Children V → ℕ → Children V
    prune_each_to depth nil level = nil
    prune_each_to depth (cons c cs) level =
        let rest = prune_each_to depth cs level in
        let kept = if ltb level depth then prune_to depth c (suc level) else c in
        if p c then rest else cons kept rest

  mutual
    unfolding rm_nodes_with_level prune_to keep_unmatched

    rm_nodes_with_level-prune_to :
        (c : Node V) (depth level : ℕ)
        → rm_nodes_with_level p c depth level ≡ prune_to depth c level
    rm_nodes_with_level-prune_to (node n v cs l) depth level =
        ap (λ (ds : Children V). node n v ds l)
          (delete_each-keep p cs (rm_in_each_with_level p cs depth level)
            ∙ keep_unmatched-prune_each_to cs depth level)

    keep_unmatched-prune_each_to :
        (cs : Children V) (depth level : ℕ)
        → keep_unmatched p cs (rm_in_each_with_level p cs depth level)
          ≡ prune_each_to depth cs level
    keep_unmatched-prune_each_to nil depth level = refl
    keep_unmatched-prune_each_to (cons c cs) depth level = ground (
      arith,
      rm_nodes_with_level-prune_to c depth (suc level),
      keep_unmatched-prune_each_to cs depth level,
    )

  -- `rm_nodes_from_predicate` down to a depth takes away the matching nodes at the levels from 1 to
  -- that depth, with all under them, and leaves the rest as it was, in order.
  pub rm_nodes-prune_to :
      (depth : ℕ) (root : Node V) → 0 < depth → rm_nodes p (some depth) root ≡ prune_to depth root 1
  unfolding rm_nodes
  rm_nodes-prune_to depth root h = ground (arith, rm_nodes_with_level-prune_to root depth 1)

  prune_to-same_test :
      IgnoresChildren → (c : Node V) (depth level : ℕ) → p (prune_to depth c level) ≡ p c
  unfolding prune_to
  prune_to-same_test i (node n v cs l) depth level = i n v _ cs l

  abbrev levels : ℕ → Depth
  levels depth = record { low = 1; high = some depth }

  mutual
    unfolding range_dfs_below prune_to

    range_dfs_below-prune_to :
        IgnoresChildren
        → (s : Sort) (c : Node V) (depth level : ℕ)
        → range_dfs_below (levels depth) s p (prune_to depth c level) level ≡ []
    range_dfs_below-prune_to i s (node n v cs l) depth level =
        range_dfs_children-prune_each_to i s cs depth level

    range_dfs_children-prune_each_to :
        IgnoresChildren
        → (s : Sort) (cs : Children V) (depth level : ℕ)
        → range_dfs_children (levels depth) s p (prune_each_to depth cs level) level ≡ []
    range_dfs_children-prune_each_to i s nil depth level = refl
    range_dfs_children-prune_each_to i s (cons c cs) depth level = elim (Bool-cases (p c)) [
      | inl e ↦ rw e (range_dfs_children-prune_each_to i s cs depth level)
      | inr e ↦
          rw (e, range_dfs_children-prune_each_to i s cs depth level)
            (ground (
              arith,
              cond2_levels depth level,
              prune_to-same_test i c depth (suc level),
              range_dfs_below-prune_to i s c depth (suc level),
              in_order-nil {A = Node V} s,
            ))
    ]

  -- After `rm_nodes_from_predicate` down to a depth no node at the levels from 1 to that depth
  -- matches, if the test looks at a node's own name, value and label only.
  rm_nodes_depth-none_left :
      IgnoresChildren
      → (s : Sort) (depth : ℕ) (root : Node V) → 0 < depth
      → range_dfs (record { low = 1; high = some depth }) s p (rm_nodes p (some depth) root) ≡ []
  unfolding rm_nodes range_dfs
  rm_nodes_depth-none_left i s depth root h =
      ground (
        arith,
        rm_nodes_with_level-prune_to root depth 1,
        range_dfs_below-prune_to i s root depth 1,
      )
