-- ===== src/Pytree/Walk/Chains.antt =====
-- `maia/pytree/walk/nodes_walkers.py` and `node_walkers.py`: searches by a chain of predicates,
-- where each predicate is searched for under the nodes that the one before it found.
use mathlib.Core.Option
use maia.Base.{List, [], ◌∷◌, ◌++◌, Bool, Option, none, some, if◌then◌else◌, map}
use maia.Pytree.Node.{Node}
use maia.Pytree.Walk.Options.{Sort, Depth}
use maia.Pytree.Walk.NodeParser.{
  Search, out_of_fuel, returns, find_dfs, find_bfs, range_find_dfs, range_find_bfs,
}
use maia.Pytree.Walk.Walker.{SearchKind, by_depth, by_breadth, Explore, parse, unlimited}

-- The keyword arguments of a walker.
pub record Options : Type 0 where
  pub search : SearchKind
  pub explore : Explore
  pub depth : Depth
  pub sort : Sort

abbrev pub append? : {B : Type 0} → Option (List B) → Option (List B) → Option (List B)
append? none ys = none
append? (some xs) none = none
append? (some xs) (some ys) = some (xs ++ ys)

module _ {A B : Type 0} where
  -- `for x in xs: yield from f(x)`, where each search may run out of fuel.
  abbrev pub yield_from : (A → Option (List B)) → List A → Option (List B)
  yield_from f [] = some []
  yield_from f (x ∷ xs) = append? (f x) (yield_from f xs)

module _ {V : Type 0} where
  -- `NodesWalker(parent, predicate, **kwargs)()`
  abbrev pub walk : Options → (Node V → Bool) → Node V → Option (List (Node V))
  walk o p parent = parse o.explore o.search o.depth o.sort p parent

  -- `NodeWalker(parent, predicate, **kwargs)()`
  unfoldable pub find : SearchKind → Depth → Sort → (Node V → Bool) → Node V → Search V
  find by_depth d s p root =
      returns (if unlimited d then find_dfs s p root else range_find_dfs d s p root)
  find by_breadth d s p root = if unlimited d then find_bfs s p root else range_find_bfs d s p root

  -- `iter_nodes_from_predicates__`
  unfoldable pub iter_nodes : Options → List (Node V → Bool) → Node V → Option (List (Node V))
  iter_nodes o [] parent = some []
  iter_nodes o (p ∷ []) parent = walk o p parent
  iter_nodes o (p ∷ q ∷ predicates) parent =
      Option.bind (walk o p parent) (yield_from (λ n. iter_nodes o (q ∷ predicates) n))

  -- `iter_nodes_from_predicates_with_parents__`
  unfoldable pub iter_lineages :
      Options → List (Node V → Bool) → Node V → Option (List (List (Node V)))
  iter_lineages o [] parent = some []
  iter_lineages o (p ∷ []) parent = Option.map (map (λ n. n ∷ [])) (walk o p parent)
  iter_lineages o (p ∷ q ∷ predicates) parent = Option.bind (walk o p parent) (
      yield_from
        (λ n. Option.map (map (λ subnode. n ∷ subnode)) (iter_lineages o (q ∷ predicates) n)))

  -- `iter_nodes_from_predicates_for_each__`
  unfoldable pub iter_nodes_each :
      List ((Node V → Bool) × Options) → Node V → Option (List (Node V))
  iter_nodes_each [] parent = some []
  iter_nodes_each ((p, o) ∷ []) parent = walk o p parent
  iter_nodes_each ((p, o) ∷ q ∷ predicates) parent =
      Option.bind (walk o p parent) (yield_from (λ n. iter_nodes_each (q ∷ predicates) n))

  -- `iter_nodes_from_predicates_with_parents_for_each__`
  unfoldable pub iter_lineages_each :
      List ((Node V → Bool) × Options) → Node V → Option (List (List (Node V)))
  iter_lineages_each [] parent = some []
  iter_lineages_each ((p, o) ∷ []) parent = Option.map (map (λ n. n ∷ [])) (walk o p parent)
  iter_lineages_each ((p, o) ∷ q ∷ predicates) parent = Option.bind (walk o p parent) (
      yield_from
        (λ n. Option.map (map (λ subnode. n ∷ subnode)) (iter_lineages_each (q ∷ predicates) n)))

  abbrev pub then_find : Search V → (Node V → Search V) → Search V
  then_find out_of_fuel k = out_of_fuel
  then_find (returns none) k = returns none
  then_find (returns (some n)) k = k n

  -- `get_node_from_predicates__`
  unfoldable pub get_node : SearchKind → Depth → Sort → List (Node V → Bool) → Node V → Search V
  get_node k d s [] parent = returns none
  get_node k d s (p ∷ []) parent = find k d s p parent
  get_node k d s (p ∷ q ∷ predicates) parent =
      then_find (find k d s p parent) (λ n. get_node k d s (q ∷ predicates) n)
