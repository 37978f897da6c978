-- ===== src/Pytree/Walk/Walker.antt =====
-- `NodesWalker` of `maia/pytree/walk/nodes_walker.py`: the options of a search, checked when they
-- are set, and a cache of its last result.
use maia.Base.{ℕ, List, [], ◌∷◌, Bool, true, false, ◌&&◌, ◌==◌, Option, none, some, if◌then◌else◌}
use maia.Base.{Text, text, text_eq}
use maia.Base.Int.{ℤ, pos, negsuc}
use maia.Base.Result.{Result, ok, raised, value_error, ok_or, ◌>>=◌}
use mathlib.Core.Option
use maia.Pytree.Node.{Node}
use maia.Pytree.Walk.Options.{Sort, Depth}
use maia.Pytree.Walk.NodesIterator.{dfs, bfs, range_dfs, range_bfs}
use maia.Pytree.Walk.ShallowIterator.{
  shallow_dfs, shallow_bfs, shallow_range_dfs, shallow_range_bfs,
}

pub data SearchKind : Type 0 where
  by_depth by_breadth : SearchKind

pub data Explore : Type 0 where
  deep shallow : Explore

-- What `depth` may be set to: `None`, an integer, or a pair. The numbers of a pair are not
-- negative here; the setter lets every other pair pass, also one whose low end is above its high.
pub data DepthValue : Type 0 where
  unset : DepthValue
  up_to : ℤ → DepthValue
  between : ℕ → Option ℕ → DepthValue

pub record NodesWalker (V : Type 0) : Type 0 where
  pub root : Node V
  pub predicate : Node V → Bool
  pub search : SearchKind
  pub explore : Explore
  pub depth : Depth
  pub sort : Sort
  pub caching : Bool
  pub cache : List (Node V)

-- `value in ['bfs', 'dfs']`
unfoldable pub check_search : Text → Result SearchKind
check_search value =
    if text_eq value (text "bfs")
    then ok by_breadth
    else if text_eq value (text "dfs")
    then ok by_depth
    else raised value_error

unfoldable pub check_explore : Text → Result Explore
check_explore value =
    if text_eq value (text "deep")
    then ok deep
    else if text_eq value (text "shallow")
    then ok shallow
    else raised value_error

unfoldable pub check_depth : DepthValue → Result Depth
check_depth unset = ok (record { low = 0; high = none })
check_depth (up_to (pos n)) = ok (record { low = 0; high = some n })
check_depth (up_to (negsuc n)) = raised value_error
check_depth (between low high) = ok (record { low = low; high = high })

-- `depth[0] == 0 and depth[1] is None`
abbrev pub unlimited : Depth → Bool
unlimited d = d.low == 0 && elim (d.high) [ none ↦ true | some h ↦ false ]

module _ {V : Type 0} where
  -- The setters, each of which but the last empties the cache.
  unfoldable pub set_root : Node V → NodesWalker V → NodesWalker V
  set_root n w = record w { root = n; cache = [] }

  unfoldable pub set_predicate : (Node V → Bool) → NodesWalker V → NodesWalker V
  set_predicate p w = record w { predicate = p; cache = [] }

  unfoldable pub set_search : Text → NodesWalker V → Result (NodesWalker V)
  set_search value w =
      check_search value >>= λ search. ok (record w { search = search; cache = [] })

  unfoldable pub set_explore : Text → NodesWalker V → Result (NodesWalker V)
  set_explore value w =
      check_explore value >>= λ explore. ok (record w { explore = explore; cache = [] })

  unfoldable pub set_depth : DepthValue → NodesWalker V → Result (NodesWalker V)
  set_depth value w = check_depth value >>= λ depth. ok (record w { depth = depth; cache = [] })

  unfoldable pub set_sort : Sort → NodesWalker V → NodesWalker V
  set_sort s w = record w { sort = s; cache = [] }

  unfoldable pub set_caching : Bool → NodesWalker V → NodesWalker V
  set_caching value w = record w { caching = value }

  -- `_get_parser`, and the call of its `search` method.
  unfoldable pub fresh_deep :
      SearchKind → Depth → Sort → (Node V → Bool) → Node V → Option (List (Node V))
  fresh_deep by_depth d s p root = some (if unlimited d then dfs s p root else range_dfs d s p root)
  fresh_deep by_breadth d s p root = if unlimited d then bfs s p root else range_bfs d s p root

  unfoldable pub fresh_shallow :
      SearchKind → Depth → Sort → (Node V → Bool) → Node V → Option (List (Node V))
  fresh_shallow by_depth d s p root =
      some (if unlimited d then shallow_dfs s p root else shallow_range_dfs d s p root)
  fresh_shallow by_breadth d s p root =
      if unlimited d then shallow_bfs s p root else shallow_range_bfs d s p root

  unfoldable pub parse :
      Explore → SearchKind → Depth → Sort → (Node V → Bool) → Node V → Option (List (Node V))
  parse deep = fresh_deep
  parse shallow = fresh_shallow

  -- The list that the walker's iterator gives.
  abbrev pub fresh : NodesWalker V → Option (List (Node V))
  fresh w = parse w.explore w.search w.depth w.sort w.predicate w.root

  -- `__call__` with caching, by the cache.
  unfoldable pub call_cached :
      NodesWalker V → List (Node V) → Option (NodesWalker V × List (Node V))
  call_cached w (n ∷ ns) = some (w, n ∷ ns)
  call_cached w [] = Option.map (λ r. (record w { cache = r }, r)) (fresh w)

  -- `__call__`: the walker afterwards, and the nodes. `none` is a search that does not end.
  unfoldable pub call : NodesWalker V → Option (NodesWalker V × List (Node V))
  unfolding call_cached
  call w = if w.caching then call_cached w w.cache else Option.map (λ r. (w, r)) (fresh w)

  -- `__init__`
  unfoldable pub new_walker :
      Node V → (Node V → Bool) → Text → Text → DepthValue → Sort → Bool → Result (NodesWalker V)
  new_walker root p search explore depth sort caching = do
    k ← check_search search
    x ← check_explore explore
    d ← check_depth depth
    ok (record {
      root = root;
      predicate = p;
      search = k;
      explore = x;
      depth = d;
      sort = sort;
      caching = caching;
      cache = [];
    })

-- What a user of a walker can do to it.
pub data Action (V : Type 0) : Type 0 where
  root_set : Node V → Action V
  predicate_set : (Node V → Bool) → Action V
  search_set explore_set : Text → Action V
  depth_set : DepthValue → Action V
  sort_set : Sort → Action V
  caching_set : Bool → Action V
  called : Action V

module _ {V : Type 0} where
  -- A setter that raises leaves the walker as it was.
  unfoldable pub act : Action V → NodesWalker V → NodesWalker V
  unfolding set_root set_predicate set_search set_explore set_depth set_sort set_caching
  act (root_set n) w = set_root n w
  act (predicate_set p) w = set_predicate p w
  act (search_set t) w = ok_or w (set_search t w)
  act (explore_set t) w = ok_or w (set_explore t w)
  act (depth_set v) w = ok_or w (set_depth v w)
  act (sort_set s) w = set_sort s w
  act (caching_set b) w = set_caching b w
  act called w = elim (call w) [ none ↦ w | some (w', r) ↦ w' ]

  unfoldable pub act_all : List (Action V) → NodesWalker V → NodesWalker V
  act_all [] w = w
  act_all (a ∷ actions) w = act_all actions (act a w)
