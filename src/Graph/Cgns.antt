-- ===== src/Graph/Cgns.antt =====
-- `maia/pytree/graph/cgns.py`: a CGNS tree as a graph.
use maia.Base.{ℕ, ◌*◌, ◌≡◌, refl, [], ◌∷◌, Option, arith}
use maia.Base.Result.{Result}
use maia.Pytree.Node.{Node, node, Children, nil, cons, get_children, to_list, size, size_children}
use maia.Graph.Stack.{Graph}
use maia.Graph.Traversal.{Rose, rose, Roses, top, tops, Unfolds, UnfoldsEach, turns, turns_each}
use maia.Graph.Visitors.{Methods, Depth, depth_first_search_with}

module _ {V : Type 0} where
  unfoldable pub pytree_adaptor : Node V → Graph (Node V)
  pytree_adaptor t = record { roots = t ∷ []; children = λ n. to_list (get_children n) }

  -- `depth_first_search`
  unfoldable pub tree_search :
      {S : Type 0}
      → Node V
      → Methods (Node V) S
      → Depth
      → ℕ
      → S
      → Option (Result (Option (Node V) × S))
  unfolding pytree_adaptor
  tree_search t v depth fuel s = depth_first_search_with (pytree_adaptor t) v depth fuel s

  -- The tree as the search sees it.
  unfoldable mutual
    pub unfolded : Node V → Rose (Node V)
    unfolded (node n v cs l) = rose (node n v cs l) (unfolded_each cs)

    pub unfolded_each : Children V → Roses (Node V)
    unfolded_each nil = Roses.nil
    unfolded_each (cons c cs) = Roses.cons (unfolded c) (unfolded_each cs)

  pub top-unfolded : (t : Node V) → top (unfolded t) ≡ t
  unfolding unfolded
  top-unfolded (node n v cs l) = refl

  pub tops-unfolded_each : (cs : Children V) → to_list cs ≡ tops (unfolded_each cs)
  unfolding unfolded
  tops-unfolded_each nil = refl
  tops-unfolded_each (cons c cs) = rw (top-unfolded c, ← tops-unfolded_each cs) refl

  mutual
    unfolding unfolded Unfolds pytree_adaptor

    pub unfolded-Unfolds : (root t : Node V) → Unfolds (pytree_adaptor root) (unfolded t)
    unfolded-Unfolds root (node n v cs l) =
        (tops-unfolded_each cs, unfolded_each-UnfoldsEach root cs)

    pub unfolded_each-UnfoldsEach :
        (root : Node V) (cs : Children V) → UnfoldsEach (pytree_adaptor root) (unfolded_each cs)
    unfolded_each-UnfoldsEach root nil = tt
    unfolded_each-UnfoldsEach root (cons c cs) =
        (unfolded-Unfolds root c, unfolded_each-UnfoldsEach root cs)

  mutual
    unfolding unfolded turns size

    pub turns-unfolded : (t : Node V) → turns (unfolded t) ≡ 2 * size t
    turns-unfolded (node n v cs l) = omega (turns_each-unfolded cs, arith)

    pub turns_each-unfolded :
        (cs : Children V) → turns_each (unfolded_each cs) ≡ 2 * size_children cs
    turns_each-unfolded nil = refl
    turns_each-unfolded (cons c cs) = omega (turns-unfolded c, turns_each-unfolded cs, arith)
