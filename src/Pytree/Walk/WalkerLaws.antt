-- ===== src/Pytree/Walk/WalkerLaws.antt =====
-- The cache of a `NodesWalker` never goes stale.
use maia.Base.{◌≡◌, refl, ◌⊎◌, inl, inr, List, [], ◌∷◌, Bool, some, Bool-cases, arith, Text}
use maia.Base.Result.{Result, ok, raised, ok_or, ◌>>=◌}
use maia.Pytree.Node.{Node}
use maia.Pytree.Walk.Options.{Sort, Depth}
use maia.Pytree.Walk.BfsLaws.{bfs-perm-dfs, range_bfs-perm-range_dfs}
use maia.Pytree.Walk.ShallowBfsLaws.{shallow_bfs-perm, shallow_range_bfs-perm}
use maia.Pytree.Walk.Walker.{
  NodesWalker, SearchKind, by_depth, by_breadth, Explore, deep, shallow, DepthValue, check_search,
  check_explore, check_depth, fresh_deep, fresh_shallow, parse, fresh, unlimited, call_cached, call,
  new_walker, Action, root_set, predicate_set, search_set, explore_set, depth_set, sort_set,
  caching_set, called, act, act_all,
}

module _ {V : Type 0} where
  -- The cache is empty, or holds what a search with the present options finds.
  abbrev pub IsCoherent : NodesWalker V → Type 0
  IsCoherent w = (w.cache ≡ []) ⊎ (fresh w ≡ some w.cache)

  -- Every search ends.
  pub parse_total :
      (x : Explore) (k : SearchKind) (d : Depth) (s : Sort) (p : Node V → Bool) (root : Node V)
      → (r : List (Node V)) × (parse x k d s p root ≡ some r)
  unfolding parse fresh_deep fresh_shallow
  parse_total deep by_depth d s p root = (_, refl)
  parse_total shallow by_depth d s p root = (_, refl)
  parse_total deep by_breadth d s p root = elim (Bool-cases (unlimited d)) [
    | inl e ↦ let (r, q, z) = bfs-perm-dfs s p root in (r, rw e q)
    | inr e ↦ let (r, q, z) = range_bfs-perm-range_dfs d s p root in (r, rw e q)
  ]
  parse_total shallow by_breadth d s p root = elim (Bool-cases (unlimited d)) [
    | inl e ↦ let (r, q, z) = shallow_bfs-perm s p root in (r, rw e q)
    | inr e ↦ let (r, q, z) = shallow_range_bfs-perm d s p root in (r, rw e q)
  ]

  pub fresh_total : (w : NodesWalker V) → (r : List (Node V)) × (fresh w ≡ some r)
  fresh_total w = parse_total w.explore w.search w.depth w.sort w.predicate w.root

  call_cached-IsCoherent :
      (w : NodesWalker V) (cache : List (Node V))
      → IsCoherent w
      → (cache ≡ []) ⊎ (fresh w ≡ some cache)
      → (w' : NodesWalker V) × (r : List (Node V)) × (fresh w ≡ some r)
        × (call_cached w cache ≡ some (w', r))
        × IsCoherent w'
  unfolding call_cached
  call_cached-IsCoherent w [] c h =
      let (r, e) = fresh_total w in (record w { cache = r }, r, e, rw e refl, inr e)
  call_cached-IsCoherent w (n ∷ ns) c h = (w, n ∷ ns, ground arith, refl, c)

  call-IsCoherent :
      (w : NodesWalker V)
      → IsCoherent w
      → (w' : NodesWalker V) × (r : List (Node V)) × (fresh w ≡ some r)
        × (call w ≡ some (w', r))
        × IsCoherent w'
  unfolding call
  call-IsCoherent w c = elim (Bool-cases w.caching) [
    | inl e ↦
        let (w', r, q, k, c') = call_cached-IsCoherent w w.cache c c in (w', r, q, simp e k, c')
    | inr e ↦ let (r, q) = fresh_total w in (w, r, q, simp (e, q), c)
  ]

  checked-IsCoherent :
      {A : Type 0} (m : Result A) (f : A → NodesWalker V) (w : NodesWalker V)
      → ((a : A) → (f a).cache ≡ [])
      → IsCoherent w
      → IsCoherent (ok_or w (m >>= λ a. ok (f a)))
  checked-IsCoherent (ok a) f w h c = inl (h a)
  checked-IsCoherent (raised e) f w h c = c

  act-IsCoherent : (a : Action V) (w : NodesWalker V) → IsCoherent w → IsCoherent (act a w)
  unfolding act
  act-IsCoherent (root_set n) w c = inl refl
  act-IsCoherent (predicate_set p) w c = inl refl
  act-IsCoherent (search_set t) w c = checked-IsCoherent (check_search t) _ w (λ k. refl) c
  act-IsCoherent (explore_set t) w c = checked-IsCoherent (check_explore t) _ w (λ k. refl) c
  act-IsCoherent (depth_set v) w c = checked-IsCoherent (check_depth v) _ w (λ k. refl) c
  act-IsCoherent (sort_set s) w c = inl refl
  act-IsCoherent (caching_set b) w c = c
  act-IsCoherent called w c = let (w', r, q, e, k) = call-IsCoherent w c in rw (e, act) k

  act_all-IsCoherent :
      (actions : List (Action V)) (w : NodesWalker V)
      → IsCoherent w
      → IsCoherent (act_all actions w)
  unfolding act_all
  act_all-IsCoherent [] w c = c
  act_all-IsCoherent (a ∷ actions) w c = act_all-IsCoherent actions (act a w) (act-IsCoherent a w c)

  new_walker-cache :
      (root : Node V) (p : Node V → Bool) (search explore : Text) (depth : DepthValue) (s : Sort)
      (caching : Bool) {w : NodesWalker V}
      → new_walker root p search explore depth s caching ≡ ok w
      → w.cache ≡ []
  unfolding new_walker
  new_walker-cache root p search explore depth s caching h = ground arith

  -- A walker that was built and then changed and called in any order and number answers a call:
  -- the search ends, and the answer is what a search with the options of that moment finds.
  pub call-fresh :
      (root : Node V) (p : Node V → Bool) (search explore : Text) (depth : DepthValue) (s : Sort)
      (caching : Bool) (actions : List (Action V)) {w : NodesWalker V}
      → new_walker root p search explore depth s caching ≡ ok w
      → (w' : NodesWalker V) × (r : List (Node V)) × (fresh (act_all actions w) ≡ some r)
        × (call (act_all actions w) ≡ some (w', r))
  call-fresh root p search explore depth s caching actions h =
      let start = inl (new_walker-cache root p search explore depth s caching h) in
      let (w', r, q, e, c) = call-IsCoherent _ (act_all-IsCoherent actions _ start) in (w', r, q, e)
