-- ===== src/Graph/CgnsLaws.antt =====
-- What `depth_first_build` makes of a whole CGNS tree.
use maia.Base.{
  ℕ, ◌*◌, ◌≤◌, ◌≡◌, refl, sym, ap, ◌∙◌, List, [], ◌∷◌, false, Option, none, some, arith,
}
use maia.Base.Result.{ok}
use maia.Pytree.Node.{Node, node, Children, nil, cons, size}
use maia.Pytree.Access.Laws.{from_list}
use maia.Graph.Traversal.{Roses, UnfoldsEach, turns_each}
use maia.Graph.Build.{depth_first_build}
use maia.Graph.BuildLaws.{built, built_each, depth_first_build_trees-built_each}
use maia.Graph.Cgns.{
  pytree_adaptor, unfolded, unfolded_each, unfolded-Unfolds, turns-unfolded, top-unfolded,
}

module _ {V T : Type 0} (ctor : Option (Node V) → List T → T) where
  -- The children first, then the node.
  unfoldable mutual
    pub fold : Node V → T
    fold (node n v cs l) = ctor (some (node n v cs l)) (fold_each cs)

    pub fold_each : Children V → List T
    fold_each nil = []
    fold_each (cons c cs) = fold c ∷ fold_each cs

  mutual
    unfolding built fold unfolded

    built-fold : (t : Node V) → built ctor none (unfolded t) ≡ (fold t, false)
    built-fold (node n v cs l) = rw (built_each-fold_each cs) refl

    built_each-fold_each :
        (cs : Children V) → built_each ctor none (unfolded_each cs) ≡ (fold_each cs, false)
    built_each-fold_each nil = refl
    built_each-fold_each (cons c cs) = rw (built-fold c, built_each-fold_each cs) refl

  only_root :
      (t : Node V) → built_each ctor none (Roses.cons (unfolded t) Roses.nil) ≡ (fold t ∷ [], false)
  unfolding built
  only_root t = rw (built-fold t) refl

  -- On a CGNS tree `depth_first_build` without `pre` ends, with fuel for two turns a node, and its
  -- two assertions hold. It gives what the constructor makes of the nodes from the leaves up.
  pub depth_first_build-fold :
      (t : Node V) (fuel : ℕ)
      → 2 * size t ≤ fuel
      → depth_first_build (pytree_adaptor t) ctor none fuel ≡ some (ok (fold t))
  unfolding depth_first_build pytree_adaptor UnfoldsEach turns_each
  depth_first_build-fold t fuel h =
      let e =
        depth_first_build_trees-built_each ctor none (pytree_adaptor t)
          (Roses.cons (unfolded t) Roses.nil) fuel (ap (λ n. n ∷ []) (sym (top-unfolded t)))
          (unfolded-Unfolds t t, tt) (omega (turns-unfolded t, arith)) in
      rw (e, only_root t) refl

-- A node with the same name, value and label.
abbrev renew : {V : Type 0} → Node V → Option (Node V) → List (Node V) → Node V
renew d none cs = d
renew d (some (node n v old l)) cs = node n v (from_list cs) l

module _ {V : Type 0} (d : Node V) where
  mutual
    unfolding fold

    fold-renew : (t : Node V) → fold (renew d) t ≡ t
    fold-renew (node n v cs l) = ap (λ ds. node n v ds l) (fold_each-renew cs)

    fold_each-renew : (cs : Children V) → from_list (fold_each (renew d) cs) ≡ cs
    fold_each-renew nil = refl
    fold_each-renew (cons c cs) = rw (fold-renew c, fold_each-renew cs) refl

  -- `depth_first_build` with a constructor that keeps the name, the value and the label of each node
  -- gives the tree itself, with fuel for two turns a node.
  depth_first_build-same :
      (t : Node V) (fuel : ℕ)
      → 2 * size t ≤ fuel
      → depth_first_build (pytree_adaptor t) (renew d) none fuel ≡ some (ok t)
  depth_first_build-same t fuel h =
      depth_first_build-fold (renew d) t fuel h ∙ ap (λ r. some (ok r)) (fold-renew t)
