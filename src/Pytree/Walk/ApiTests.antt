-- ===== src/Pytree/Walk/ApiTests.antt =====
-- The theorems on the walkers and on the functions that use them, applied to a small tree.
use mathlib.Core.Option
use maia.Base.{ℕ, ◌≡◌, refl, List, [], ◌∷◌, Bool, true, false, some, map, text, text_eq}
use maia.Base.Result.{ok, ◌>>=◌}
use maia.Base.Int.{pos}
use maia.Pytree.Node.{Node}
use maia.Pytree.Walk.Options.{forward, everywhere}
use maia.Pytree.Walk.Walker.{
  NodesWalker, by_depth, shallow, deep, unset, up_to, new_walker, Action, called, predicate_set,
  depth_set, explore_set, act_all, call, fresh,
}
use maia.Pytree.Walk.WalkerLaws.{call-fresh}
use maia.Pytree.Walk.Chains.{Options}
use maia.Pytree.Walk.ChainLaws.{last_of}
use maia.Pytree.Walk.ChainWalker.{nodes, lineages}
use maia.Pytree.Walk.ChainWalker.{alike, new_walkers, call_walkers, iter_fresh}
use maia.Pytree.Walk.ChainWalkerLaws.{
  ChainAction, ancestors_to, walk_it, chain_act_all, call_walkers-fresh,
}
use maia.Pytree.Walk.Api.{
  Kwargs, get_node_from_predicate, get_nodes_from_predicate, get_nodes_from_predicates,
}
use maia.Pytree.Walk.ApiLaws.{
  first_found, get_node_from_predicate-head?, get_nodes_from_predicates_lem,
}
use maia.Base.{none}
use maia.Pytree.Walk.LineageLaws.{Each, IsLineage}
use maia.Pytree.Sample.{tree, is_zone, is_grid}

-- A walker for zones with a cache, as built.
abbrev walker : NodesWalker ℕ
walker = record {
  root = tree;
  predicate = is_zone;
  search = by_depth;
  explore = shallow;
  depth = everywhere;
  sort = forward;
  caching = true;
  cache = [];
}

new_walker_run :
    new_walker tree is_zone (text "dfs") (text "shallow") unset forward true ≡ ok walker
unfolding new_walker maia.Pytree.Walk.Walker.check_search maia.Pytree.Walk.Walker.check_explore
    maia.Pytree.Walk.Walker.check_depth text_eq
new_walker_run = refl

-- It is called, sent to another depth and another test, and called again.
abbrev actions : List (Action ℕ)
actions =
    called
    ∷ depth_set (up_to (pos 1))
    ∷ called
    ∷ predicate_set is_grid
    ∷ explore_set (text "deep")
    ∷ []

call-fresh_example :
    (w' : NodesWalker ℕ) × (r : List (Node ℕ)) × (fresh (act_all actions walker) ≡ some r)
    × (call (act_all actions walker) ≡ some (w', r))
call-fresh_example =
    call-fresh tree is_zone (text "dfs") (text "shallow") unset forward true actions new_walker_run

abbrev options : Options
options = record { search = by_depth; explore = deep; depth = everywhere; sort = forward }

abbrev chain : List (Node ℕ → Bool)
chain = is_zone ∷ is_grid ∷ []

-- A walker of the chain is called, its ancestors are asked for, and it is called again.
abbrev chain_actions : List (ChainAction ℕ)
chain_actions = walk_it ∷ ancestors_to true ∷ walk_it ∷ []

call_walkers-fresh_example :
    call_walkers (chain_act_all chain_actions (new_walkers tree (alike chain) options false true))
      >>= (λ r. ok (Option.map (λ a. a.1) r))
    ≡ iter_fresh (chain_act_all chain_actions (new_walkers tree (alike chain) options false true))
call_walkers-fresh_example = call_walkers-fresh tree (alike chain) options false true chain_actions

abbrev deep_kwargs : Kwargs
deep_kwargs = record { search = text "bfs"; explore = none; depth = up_to (pos 2); sort = forward }

get_node_from_predicate-head?_example :
    get_node_from_predicate deep_kwargs is_zone tree
    ≡ get_nodes_from_predicate (record deep_kwargs { explore = some (text "deep") }) is_zone tree
      >>= λ found. ok (first_found found)
get_node_from_predicate-head?_example = get_node_from_predicate-head? deep_kwargs is_zone tree refl

get_nodes_from_predicates_lem_example :
    (ls : List (List (Node ℕ))) × (get_nodes_from_predicates options true chain tree
      ≡ ok (some (lineages ls)))
    × Each (IsLineage options chain tree) ls
    × (get_nodes_from_predicates options false chain tree
        ≡ ok (some (nodes (map (last_of tree) ls))))
get_nodes_from_predicates_lem_example = get_nodes_from_predicates_lem options chain tree
