-- ===== src/Pytree/Walk/Finder.antt =====
-- `NodeWalker` of `maia/pytree/walk/node_walker.py`: the options of a search for one node. It has
-- no cache.
use maia.Base.{Bool}
use maia.Base.{Text}
use maia.Base.Result.{Result, ok, ◌>>=◌}
use maia.Pytree.Node.{Node}
use maia.Pytree.Walk.Options.{Sort, Depth}
use maia.Pytree.Walk.NodeParser.{Search}
use maia.Pytree.Walk.Walker.{SearchKind, DepthValue, check_search, check_depth}
use maia.Pytree.Walk.Chains.{find}

pub record NodeWalker (V : Type 0) : Type 0 where
  pub root : Node V
  pub predicate : Node V → Bool
  pub search : SearchKind
  pub depth : Depth
  pub sort : Sort

module _ {V : Type 0} where
  unfoldable pub new_node_walker :
      Node V → (Node V → Bool) → Text → DepthValue → Sort → Result (NodeWalker V)
  new_node_walker root p search depth sort = do
    k ← check_search search
    d ← check_depth depth
    ok (record { root = root; predicate = p; search = k; depth = d; sort = sort })

  unfoldable pub find_root : Node V → NodeWalker V → NodeWalker V
  find_root n w = record w { root = n }

  unfoldable pub find_predicate : (Node V → Bool) → NodeWalker V → NodeWalker V
  find_predicate p w = record w { predicate = p }

  unfoldable pub find_search : Text → NodeWalker V → Result (NodeWalker V)
  find_search value w = check_search value >>= λ k. ok (record w { search = k })

  unfoldable pub find_depth : DepthValue → NodeWalker V → Result (NodeWalker V)
  find_depth value w = check_depth value >>= λ d. ok (record w { depth = d })

  unfoldable pub find_sort : Sort → NodeWalker V → NodeWalker V
  find_sort s w = record w { sort = s }

  -- `__call__`
  unfoldable pub call_finder : NodeWalker V → Search V
  call_finder w = find w.search w.depth w.sort w.predicate w.root
