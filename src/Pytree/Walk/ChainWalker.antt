-- ===== src/Pytree/Walk/ChainWalker.antt =====
-- `NodesWalkers` of `maia/pytree/walk/nodes_walkers.py` and `NodeWalkers` of `node_walkers.py`:
-- walkers along a chain of predicates, with one set of options for all or one for each.
use mathlib.Core.Option
use maia.Base.{List, [], ◌∷◌, Bool, true, false, Option, none, some, if◌then◌else◌}
use maia.Base.Result.{Result, ok, raised, value_error, ◌>>=◌}
use maia.Pytree.Node.{Node}
use maia.Pytree.Walk.NodeParser.{Search, returns}
use maia.Pytree.Walk.Chains.{
  Options, iter_nodes, iter_nodes_each, iter_lineages, iter_lineages_each, find, then_find,
  get_node,
}

-- The predicates of a walker: callables, or dictionaries with the options of each, where the key
-- `predicate` may be missing.
pub data Predicates (V : Type 0) : Type 0 where
  alike : List (Node V → Bool) → Predicates V
  each : List (Option (Node V → Bool) × Options) → Predicates V

-- What a walker answers: nodes, or with `ancestors` the tuples of nodes that lead to them.
pub data Answer (V : Type 0) : Type 0 where
  nodes : List (Node V) → Answer V
  lineages : List (List (Node V)) → Answer V

pub record NodesWalkers (V : Type 0) : Type 0 where
  pub root : Node V
  pub predicates : Predicates V
  pub options : Options
  pub ancestors : Bool
  pub caching : Bool
  pub cache : Answer V

module _ {V : Type 0} where
  -- `bool(self._cache)`
  abbrev pub is_filled : Answer V → Bool
  is_filled (nodes []) = false
  is_filled (nodes (n ∷ ns)) = true
  is_filled (lineages []) = false
  is_filled (lineages (n ∷ ns)) = true

  unfoldable pub clean : NodesWalkers V → NodesWalkers V
  clean w = record w { cache = nodes [] }

  unfoldable pub new_walkers : Node V → Predicates V → Options → Bool → Bool → NodesWalkers V
  new_walkers root predicates options ancestors caching = record {
    root = root;
    predicates = predicates;
    options = options;
    ancestors = ancestors;
    caching = caching;
    cache = nodes [];
  }

  -- The setters: each ends with `clean`.
  unfoldable pub set_root : Node V → NodesWalkers V → NodesWalkers V
  unfolding clean
  set_root n w = clean (record w { root = n })

  unfoldable pub set_predicates : Predicates V → NodesWalkers V → NodesWalkers V
  unfolding clean
  set_predicates ps w = clean (record w { predicates = ps })

  unfoldable pub set_ancestors : Bool → NodesWalkers V → NodesWalkers V
  unfolding clean
  set_ancestors b w = clean (record w { ancestors = b })

  unfoldable pub set_caching : Bool → NodesWalkers V → NodesWalkers V
  unfolding clean
  set_caching b w = clean (record w { caching = b })

  -- `_deconv_kwargs`
  unfoldable pub deconv_kwargs :
      List (Option (Node V → Bool) × Options) → Result (List ((Node V → Bool) × Options))
  deconv_kwargs [] = ok []
  deconv_kwargs ((none, o) ∷ kwargs) = raised value_error
  deconv_kwargs ((some p, o) ∷ kwargs) = deconv_kwargs kwargs >>= λ r. ok ((p, o) ∷ r)

  -- The iterator that `_parse_with_parents` makes.
  unfoldable pub iter_with_parents : NodesWalkers V → Result (Option (Answer V))
  unfolding deconv_kwargs
  iter_with_parents w = elim (w.predicates) [
    | alike ps ↦ ok (Option.map lineages (iter_lineages w.options ps w.root))
    | each kwargs ↦
        deconv_kwargs kwargs >>= λ ps. ok (Option.map lineages (iter_lineages_each ps w.root))
  ]

  -- The iterator that `_parse` makes.
  unfoldable pub iter_terminal : NodesWalkers V → Result (Option (Answer V))
  unfolding deconv_kwargs
  iter_terminal w = elim (w.predicates) [
    | alike ps ↦ ok (Option.map nodes (iter_nodes w.options ps w.root))
    | each kwargs ↦ deconv_kwargs kwargs >>= λ ps. ok (Option.map nodes (iter_nodes_each ps w.root))
  ]

  unfoldable pub iter_fresh : NodesWalkers V → Result (Option (Answer V))
  unfolding iter_with_parents iter_terminal
  iter_fresh w = if w.ancestors then iter_with_parents w else iter_terminal w

  -- The caching that `_parse` and `_parse_with_parents` share. The options of each predicate are
  -- read before the cache is looked at.
  unfoldable pub with_cache :
      NodesWalkers V → Result (Option (Answer V)) → Result (Option (NodesWalkers V × Answer V))
  with_cache w found = found >>= λ r. ok (
      if w.caching
      then if is_filled w.cache
        then some (w, w.cache)
        else Option.map (λ a. (record w { cache = a }, a)) r
      else Option.map (λ a. (w, a)) r)

  -- `__call__`: the walker afterwards, and the answer.
  unfoldable pub call_walkers : NodesWalkers V → Result (Option (NodesWalkers V × Answer V))
  unfolding with_cache iter_fresh
  call_walkers w = with_cache w (iter_fresh w)

  -- `get_node_from_predicates_for_each__`. A search for one node has no `explore`.
  unfoldable pub get_node_each : List ((Node V → Bool) × Options) → Node V → Search V
  get_node_each [] parent = returns none
  get_node_each ((p, o) ∷ []) parent = find o.search o.depth o.sort p parent
  get_node_each ((p, o) ∷ q ∷ predicates) parent =
      then_find (find o.search o.depth o.sort p parent) (λ n. get_node_each (q ∷ predicates) n)

  -- `NodeWalkers.__call__`
  unfoldable pub call_first : Options → Predicates V → Node V → Result (Search V)
  unfolding deconv_kwargs get_node_each
  call_first o (alike ps) root = ok (get_node o.search o.depth o.sort ps root)
  call_first o (each kwargs) root = deconv_kwargs kwargs >>= λ ps. ok (get_node_each ps root)
