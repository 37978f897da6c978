-- ===== src/Sids/ChildLaws.antt =====
-- The searches among the children of a node are the searches of `maia/pytree/walk` at depth one.
use maia.Base.{
  ℕ, ◌≡◌, refl, ap, ◌∙◌, List, [], ◌∷◌, Bool, true, false, some, none, if◌then◌else◌, filter,
  or_else, text, arith,
}
use maia.Base.Result.{ok}
use maia.Pytree.Node.{Node, node, Children, nil, cons, to_list}
use maia.Pytree.ByPath.{child_kwargs}
use maia.Pytree.Walk.Options.{forward, Depth}
use maia.Pytree.Walk.NodeParser.{returns, range_find_below, range_find_children, range_find_dfs}
use maia.Pytree.Walk.ShallowIterator.{
  shallow_range_dfs_below, shallow_range_dfs_children, shallow_range_dfs,
}
use maia.Pytree.Walk.Finder.{new_node_walker, call_finder}
use maia.Pytree.Walk.Chains.{find}
use maia.Pytree.Walk.Api.{get_node_from_predicate, get_nodes_from_predicate}
use maia.Sids.Arrays.{first_of_children, get_child, get_children_from}

abbrev one_level : Depth
one_level = record { low = 1; high = some 1 }

module _ {V : Type 0} (p : Node V → Bool) where
  range_find_children-first :
      (cs : Children V) → range_find_children one_level forward p cs 1 ≡ first_of_children p cs
  unfolding range_find_children maia.Pytree.Walk.Options.cond2
  range_find_children-first nil = refl
  range_find_children-first (cons c cs) = ground (arith, range_find_children-first cs)

  shallow_children-filter :
      (cs : Children V)
      → shallow_range_dfs_children one_level forward p cs 1 ≡ filter p (to_list cs)
  unfolding shallow_range_dfs_children maia.Pytree.Walk.Options.cond2
  shallow_children-filter nil = refl
  shallow_children-filter (cons c cs) = ground (arith, shallow_children-filter cs)

  -- With the keyword arguments that the searches among children have, `get_node_from_predicate`
  -- returns the first child that matches, if any, and `get_nodes_from_predicate` the children that
  -- match, in order.
  get_child-search :
      (root : Node V)
      → (get_node_from_predicate child_kwargs p root ≡ ok (returns (get_child p root)))
        × (get_nodes_from_predicate child_kwargs p root ≡ ok (some (get_children_from p root)))
  unfolding get_node_from_predicate new_node_walker call_finder find get_child range_find_dfs
      maia.Base.text_eq maia.Pytree.Walk.Walker.check_search maia.Pytree.Walk.Walker.check_depth
      maia.Pytree.Walk.Options.cond1 range_find_below shallow_range_dfs get_children_from
      get_nodes_from_predicate maia.Pytree.Walk.Walker.new_walker
      maia.Pytree.Walk.Walker.check_explore maia.Pytree.Walk.Walker.call
      maia.Pytree.Walk.Walker.parse shallow_range_dfs_below maia.Pytree.Walk.Walker.fresh_shallow
  get_child-search (node n v cs l) =
      (rw (range_find_children-first cs) refl, rw (shallow_children-filter cs) refl)
