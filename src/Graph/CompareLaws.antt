-- ===== src/Graph/CompareLaws.antt =====
-- A tree and a reordered copy of it are the same to `is_same_tree`.
use mathlib.Core.Path.{ap₂}
use maia.Base.{
  ℕ, ◌+◌, ◌*◌, ◌≤◌, ◌≡◌, refl, ap, sym, ◌∙◌, List, [], ◌∷◌, Bool, true, Option, none, some, Text,
  text_eq_self, arith,
}
use maia.Base.Result.{Result, ok, ◌>>=◌}
use maia.Pytree.Node.{Node, node, Children, to_list, size, size_children}
use maia.Graph.Stack.{into, Graph, Visitor}
use maia.Graph.Traversal.{
  Rose, Roses, top, tops, Unfolds, UnfoldsEach, turns, turns_each, goes_on, path, visit, visit_each,
  traverse, result,
}
use maia.Graph.StackLaws.{depth_first_search-traverse}
use maia.Graph.Visitors.{
  depth_first_search_with, adapt_visitor, complete_visitor, close_ancestor_visitor,
}
use maia.Graph.QuietLaws.{ancestors_list-path, quiet, enter-same, pass-same}
use maia.Graph.Build.{one_argument}
use maia.Graph.Zip.{Pair, pytree_zip_adaptor, get_sorted_children, zip_lists, sorted, node_lt}
use maia.Graph.SortLaws.{sorted-node_lt}
use maia.Graph.Reorder.{Reordered, reordered, Permuted, empty, put, Inserted, here, there}
use maia.Graph.Zipped.{
  zipped, zipped_each, top-zipped, Each, Each-insert_rose, turns_each-insert_rose, zip_lists-Zips,
  Zips-zipped_each, distinct_left, distinct_right,
}
use maia.Graph.Compare.{
  Arrays, is_same_value, is_same_node, same_step, same_pre, same_tree_visitor, is_same_tree,
}

module _ {V : Type 0} where
  sorted_alike :
      (rest : Node V → Node V → Bool) {cs ds : Children V} (p : Permuted cs ds)
      → zip_lists (sorted (node_lt rest) (to_list cs)) (sorted (node_lt rest) (to_list ds))
        ≡ tops (zipped_each p)
  sorted_alike rest {cs} {ds} p =
      ap₂ zip_lists (sorted-node_lt rest (to_list cs) (distinct_left p))
        (sorted-node_lt rest (to_list ds) (distinct_right p))
      ∙ zip_lists-Zips _ _ (zipped_each p) (Zips-zipped_each p)

  UnfoldsEach-Each :
      (g : Graph (Pair V)) (rs : Roses (Pair V)) → Each (Unfolds g) rs → UnfoldsEach g rs
  unfolding UnfoldsEach
  UnfoldsEach-Each g Roses.nil u = tt
  UnfoldsEach-Each g (Roses.cons r rs) (u, us) = (u, UnfoldsEach-Each g rs us)

  size-Inserted :
      {d : Node V} {ds es : Children V}
      → Inserted d ds es
      → size_children es ≡ size d + size_children ds
  unfolding size
  size-Inserted here = refl
  size-Inserted (there i) = omega (size-Inserted i, arith)

  module _ (rest : Node V → Node V → Bool) (root : Pair V) where
    mutual
      unfolding zipped Unfolds pytree_zip_adaptor get_sorted_children

      pub zipped-Unfolds :
          {c d : Node V} (r : Reordered c d) → Unfolds (pytree_zip_adaptor rest root) (zipped r)
      zipped-Unfolds (reordered n v l p) =
          (sorted_alike rest p, UnfoldsEach-Each _ (zipped_each p) (zipped_each-Unfolds p))

      zipped_each-Unfolds :
          {cs ds : Children V} (p : Permuted cs ds)
          → Each (Unfolds (pytree_zip_adaptor rest root)) (zipped_each p)
      zipped_each-Unfolds empty = tt
      zipped_each-Unfolds (put r p i h k) =
          Each-insert_rose (Unfolds (pytree_zip_adaptor rest root)) (zipped r) (zipped_each p)
            (zipped-Unfolds r) (zipped_each-Unfolds p)

  mutual
    unfolding zipped turns size

    pub turns-zipped : {c d : Node V} (r : Reordered c d) → turns (zipped r) ≡ 2 * size c
    turns-zipped (reordered n v l p) = omega (turns_each-zipped p, arith)

    turns_each-zipped :
        {cs ds : Children V} (p : Permuted cs ds)
        → turns_each (zipped_each p) ≡ 2 * size_children cs
    turns_each-zipped empty = refl
    turns_each-zipped (put r p i h k) = omega (
      turns_each-insert_rose (zipped r) (zipped_each p),
      turns-zipped r,
      turns_each-zipped p,
      arith,
    )

module _ {V T : Type 0} (np : Arrays V T) (abs_tol : T) (type_tol : Bool)
    (same : (v : Option V) → is_same_value np abs_tol type_tol v v ≡ true) where
  -- What the search calls.
  abbrev pub comparer : Visitor (Pair V) (Result Bool)
  comparer =
      quiet
        (some (λ args is_same. one_argument args >>= λ ns. same_pre np abs_tol type_tol ns is_same))
        none

  -- The visitor goes through the place and finds no difference.
  abbrev Passes : Rose (Pair V) → Type 0
  Passes r = (above : List (Pair V)) → visit comparer r above (ok true) ≡ goes_on (ok true)

  siblings_pass :
      (rs : Roses (Pair V))
      → Each Passes rs
      → (above : List (Pair V)) → visit_each comparer rs above (ok true) ≡ goes_on (ok true)
  unfolding visit_each
  siblings_pass Roses.nil ps above = refl
  siblings_pass (Roses.cons r rs) (p, ps) above =
      rw (p above, pass-same _ none (top r) rs above (ok true)) (siblings_pass rs ps above)

  same_here :
      (n : Text) (v : Option V) (cs ds : Children V) (l : Text)
      → same_step np abs_tol type_tol (some (node n v cs l), some (node n v ds l)) true
        ≡ (true, some into)
  unfolding same_step is_same_node
  same_here n v cs ds l = rw (text_eq_self n, text_eq_self l, same v) refl

  comparer-pre :
      (n : Text) (v : Option V) (cs ds : Children V) (l : Text) (above : List (Pair V))
      → comparer.pre (path comparer (some (node n v cs l), some (node n v ds l)) above) (ok true)
        ≡ (ok true, some into)
  unfolding close_ancestor_visitor complete_visitor
  comparer-pre n v cs ds l above =
      rw
        (
          ancestors_list-path (some (node n v cs l), some (node n v ds l)) above,
          same_here n v cs ds l,
        )
        refl

  pub comparer-post : (ns : List (Option (Pair V))) → comparer.post ns (ok true) ≡ ok true
  unfolding close_ancestor_visitor complete_visitor
  comparer-post ns = refl

  mutual
    unfolding zipped visit

    passes : {c d : Node V} (r : Reordered c d) → Passes (zipped r)
    passes (reordered n v l {cs} {ds} p) above =
        rw
          (
            comparer-pre n v cs ds l above,
            enter-same _ none (zipped_each p) (some (node n v cs l), some (node n v ds l)) above
                (ok true),
            siblings_pass (zipped_each p) (children_pass p)
                ((some (node n v cs l), some (node n v ds l)) ∷ above),
          )
          (ap goes_on (comparer-post _))

    children_pass : {cs ds : Children V} (p : Permuted cs ds) → Each Passes (zipped_each p)
    children_pass empty = tt
    children_pass (put r p i h k) =
        Each-insert_rose Passes (zipped r) (zipped_each p) (passes r) (children_pass p)

  traversed :
      (r : Rose (Pair V))
      → Passes r
      → traverse comparer (Roses.cons r Roses.nil) (ok true) ≡ (none, ok true)
  unfolding traverse
  traversed r p = ap (result comparer) (siblings_pass (Roses.cons r Roses.nil) (p, tt) [])

  -- `is_same_tree` ends, raises nothing and finds a tree the same as one that has its nodes with
  -- the children in another order, with fuel for two turns a node. Siblings have distinct names
  -- and a value is the same as itself, which no array with a `NaN` is.
  pub is_same_tree-Reordered :
      (rest : Node V → Node V → Bool) (t u : Node V) (fuel : ℕ)
      → Reordered t u
      → 2 * size t ≤ fuel
      → is_same_tree np rest abs_tol type_tol fuel t u ≡ some (ok true)
  unfolding is_same_tree depth_first_search_with adapt_visitor same_tree_visitor pytree_zip_adaptor
      turns_each UnfoldsEach
  is_same_tree-Reordered rest t u fuel r h =
      let e =
        depth_first_search-traverse comparer (pytree_zip_adaptor rest (some t, some u))
          (Roses.cons (zipped r) Roses.nil) fuel (ok true) (ap (λ n. n ∷ []) (sym (top-zipped r)))
          (zipped-Unfolds rest (some t, some u) r, tt) (omega (turns-zipped r, arith)) in
      rw (e, traversed (zipped r) (passes r)) refl
