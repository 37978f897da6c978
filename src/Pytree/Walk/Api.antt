-- ===== src/Pytree/Walk/Api.antt =====
-- `maia/pytree/walk/walkers_api.py` on predicates that are callables: the functions that build a
-- walker and call it at once.
use mathlib.Core.Option
use maia.Base.{List, Bool, true, false, Option, none, some}
use maia.Base.{Text, text}
use maia.Base.Result.{Result, ok, raised, node_not_found, type_error, ◌>>=◌}
use maia.Pytree.Node.{Node}
use maia.Pytree.Walk.Options.{Sort}
use maia.Pytree.Walk.NodeParser.{Search, out_of_fuel, returns}
use maia.Pytree.Walk.Walker.{DepthValue, new_walker, call}
use maia.Pytree.Walk.Chains.{Options}
use maia.Pytree.Walk.Finder.{new_node_walker, call_finder}
use maia.Pytree.Walk.ChainWalker.{Answer, alike, new_walkers, call_walkers, call_first}

-- The keyword arguments. `explore` may be left out; a walker for several nodes is then shallow.
pub record Kwargs : Type 0 where
  pub search : Text
  pub explore : Option Text
  pub depth : DepthValue
  pub sort : Sort

abbrev pub explore_or_default : Option Text → Text
explore_or_default none = text "shallow"
explore_or_default (some t) = t

-- `NodeWalker` has no argument `explore`.
abbrev pub no_explore : {A : Type 0} → Option Text → Result A → Result A
no_explore none r = r
no_explore (some t) r = raised type_error

-- A search that may not end answers `none`.
module _ {V : Type 0} where
  unfoldable pub get_node_from_predicate : Kwargs → (Node V → Bool) → Node V → Result (Search V)
  get_node_from_predicate k p root =
      no_explore k.explore
        (new_node_walker root p k.search k.depth k.sort >>= λ w. ok (call_finder w))

  -- `request_node_from_predicate`.
  abbrev pub or_default : Option (Node V) → Search V → Result (Option (Node V))
  or_default d out_of_fuel = ok none
  or_default d (returns (some n)) = ok (some n)
  or_default (some n) (returns none) = ok (some n)
  or_default none (returns none) = raised node_not_found

  unfoldable pub request_node_from_predicate :
      Kwargs → Option (Node V) → (Node V → Bool) → Node V → Result (Option (Node V))
  unfolding get_node_from_predicate
  request_node_from_predicate k d p root = get_node_from_predicate k p root >>= or_default d

  -- `NodesWalker(root, predicate, **kwargs)()`
  abbrev pub walk_once : Bool → Kwargs → (Node V → Bool) → Node V → Result (Option (List (Node V)))
  walk_once caching k p root =
      new_walker root p k.search (explore_or_default k.explore) k.depth k.sort caching >>= λ w.
      ok (Option.map (λ a. a.1) (call w))

  unfoldable pub get_nodes_from_predicate :
      Kwargs → (Node V → Bool) → Node V → Result (Option (List (Node V)))
  get_nodes_from_predicate = walk_once true

  unfoldable pub iter_nodes_from_predicate :
      Kwargs → (Node V → Bool) → Node V → Result (Option (List (Node V)))
  iter_nodes_from_predicate = walk_once false

  -- The functions on chains take the options that a walker of the chain has checked.
  unfoldable pub get_node_from_predicates :
      Options → List (Node V → Bool) → Node V → Result (Search V)
  get_node_from_predicates o ps root = call_first o (alike ps) root

  abbrev pub walk_chain_once :
      Bool → Options → Bool → List (Node V → Bool) → Node V → Result (Option (Answer V))
  walk_chain_once caching o ancestors ps root =
      call_walkers (new_walkers root (alike ps) o ancestors caching) >>= λ r.
      ok (Option.map (λ a. a.1) r)

  unfoldable pub iter_nodes_from_predicates :
      Options → Bool → List (Node V → Bool) → Node V → Result (Option (Answer V))
  iter_nodes_from_predicates = walk_chain_once false

  unfoldable pub get_nodes_from_predicates :
      Options → Bool → List (Node V → Bool) → Node V → Result (Option (Answer V))
  get_nodes_from_predicates = walk_chain_once true
