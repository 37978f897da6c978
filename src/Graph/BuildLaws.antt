-- ===== src/Graph/BuildLaws.antt =====
-- What `depth_first_build` makes of a tree, as a recursion on the tree.
use mathlib.Core.Option
use maia.Base.{
  ℕ, ◌≤◌, ◌≡◌, refl, sym, ap, ◌∙◌, List, [], ◌∷◌, ◌++◌, Bool, true, false, Option, none, some,
  append_assoc, append-nil,
}
use maia.Base.Result.{Result, ok, ◌>>=◌}
use maia.Graph.Stack.{Step, into, over, out, Graph, Visitor}
use maia.Graph.Traversal.{
  Rose, rose, Roses, nil, cons, top, tops, UnfoldsEach, turns_each, Flow, goes_on, stopped_at,
  and_then, choose, path, pass, visit, visit_each, climb, result, traverse,
}
use maia.Graph.StackLaws.{depth_first_search-traverse}
use maia.Graph.Visitors.{
  depth_first_search_with, adapt_visitor, complete_visitor, close_ancestor_visitor, outcome,
}
use maia.Graph.QuietLaws.{ancestors_list-path, quiet, quiet-up, enter-same, pass-same}
use maia.Graph.Build.{
  build_pre, build_post, build_tree_visitor, step_of, depth_first_build_trees,
  retrieve_composition_term,
}

-- After a stop nothing more is built.
abbrev pub built_then : {T : Type 0} → T × Bool → List T × Bool → List T × Bool
built_then (t, true) (ts, stop) = (t ∷ [], true)
built_then (t, false) (ts, stop) = (t ∷ ts, stop)

module _ {N T : Type 0} (ctor : Option N → List T → T) (pre : Option (Option N → Option Step)) where
  abbrev pub built_at : N → Option Step → List T × Bool → T × Bool
  built_at n none (ts, stop) = (ctor (some n) ts, stop)
  built_at n (some into) (ts, stop) = (ctor (some n) ts, stop)
  built_at n (some over) (ts, stop) = (ctor (some n) [], false)
  built_at n (some out) (ts, stop) = (ctor (some n) [], true)

  -- The tree built from a node, and whether `pre` has stopped the traversal under it.
  unfoldable mutual
    pub built : Rose N → T × Bool
    built (rose n cs) = built_at n (step_of pre (some n)) (built_each cs)

    pub built_each : Roses N → List T × Bool
    built_each nil = ([], false)
    built_each (cons r rs) = built_then (built r) (built_each rs)

module _ {N T : Type 0} (ctor : Option N → List T → T) (pre : Option (Option N → Option Step)) where
  -- What the search calls.
  abbrev builder : Visitor N (Result (List (List T)))
  builder = quiet (some (build_pre pre)) (some (build_post ctor))

  builder-pre :
      (n : N) (above : List N) (stack : List (List T))
      → builder.pre (path builder n above) (ok stack) ≡ (ok ([] ∷ stack), step_of pre (some n))
  unfolding close_ancestor_visitor complete_visitor
  builder-pre n above stack = rw (ancestors_list-path n above) refl

  builder-post :
      (n : N) (above : List N) (children siblings : List T) (stack : List (List T))
      → builder.post (path builder n above) (ok (children ∷ siblings ∷ stack))
        ≡ ok ((siblings ++ ctor (some n) children ∷ []) ∷ stack)
  unfolding close_ancestor_visitor complete_visitor
  builder-post n above children siblings stack = rw (ancestors_list-path n above) refl

  -- `post` at every ancestor.
  abbrev climb_rest : List N → Result (List (List T)) → Result (List (List T))
  climb_rest [] r = r
  climb_rest (a ∷ above) r = climb builder a above r

  climb-post :
      (n : N) (above : List N) (children siblings : List T) (stack : List (List T))
      → climb builder n above (ok (children ∷ siblings ∷ stack))
        ≡ climb_rest above (ok ((siblings ++ ctor (some n) children ∷ []) ∷ stack))
  unfolding climb
  climb-post n [] children siblings stack = builder-post n [] children siblings stack
  climb-post n (a ∷ above) children siblings stack = ap (climb builder a above) (
      quiet-up (some (build_pre pre)) (some (build_post ctor)) n a above _
      ∙ builder-post n (a ∷ above) children siblings stack)

  -- The traversal has left these siblings on the stack.
  abbrev Leaves : List N → List (List T) → Flow N (Result (List (List T))) → List T × Bool → Type 0
  Leaves above stack (goes_on r) (ts, stop) = (stop ≡ false) × (r ≡ ok (ts ∷ stack))
  Leaves above stack (stopped_at n ns r) (ts, stop) =
      (stop ≡ true) × (climb builder n ns r ≡ climb_rest above (ok (ts ∷ stack)))

  abbrev after : List T → T × Bool → List T × Bool
  after siblings (t, stop) = (siblings ++ t ∷ [], stop)

  abbrev after_all : List T → List T × Bool → List T × Bool
  after_all siblings (ts, stop) = (siblings ++ ts, stop)

  children_left :
      (n : N) (above : List N) (siblings : List T) (stack : List (List T))
      (fl : Flow N (Result (List (List T)))) (ts : List T × Bool)
      → Leaves (n ∷ above) (siblings ∷ stack) fl ts
      → Leaves above stack
          (and_then fl (λ r. goes_on (builder.post (path builder n above) r)))
          (siblings ++ ctor (some n) ts.0 ∷ [], ts.1)
  children_left n above siblings stack (goes_on r) (ts, stop) (e, h) =
      (e, ap (builder.post (path builder n above)) h ∙ builder-post n above ts siblings stack)
  children_left n above siblings stack (stopped_at m ns r) (ts, stop) (e, h) =
      (e, h ∙ climb-post n above ts siblings stack)

  node_left :
      (n : N) (above : List N) (siblings : List T) (stack : List (List T)) (step : Option Step)
      (fl : Flow N (Result (List (List T)))) (ts : List T × Bool)
      → Leaves (n ∷ above) (siblings ∷ stack) fl ts
      → Leaves above stack
          (choose step
            (and_then fl (λ r. goes_on (builder.post (path builder n above) r)))
            (goes_on (builder.post (path builder n above) (ok ([] ∷ siblings ∷ stack))))
            (stopped_at n above (ok ([] ∷ siblings ∷ stack))))
          (after siblings (built_at ctor pre n step ts))
  node_left n above siblings stack none fl ts h = children_left n above siblings stack fl ts h
  node_left n above siblings stack (some into) fl ts h =
      children_left n above siblings stack fl ts h
  node_left n above siblings stack (some over) fl ts h =
      (refl, builder-post n above [] siblings stack)
  node_left n above siblings stack (some out) fl ts h = (refl, climb-post n above [] siblings stack)

  siblings_left :
      (n : N) (rs : Roses N) (above : List N) (siblings : List T) (stack : List (List T))
      (fl : Flow N (Result (List (List T)))) (b : T × Bool) (bs : List T × Bool)
      → Leaves above stack fl (after siblings b)
      → Leaves above stack
          (visit_each builder rs above (ok ((siblings ++ b.0 ∷ []) ∷ stack)))
          (after_all (siblings ++ b.0 ∷ []) bs)
      → Leaves above stack
          (and_then fl (λ r. visit_each builder rs above (pass builder n rs above r)))
          (after_all siblings (built_then b bs))
  siblings_left n rs above siblings stack (goes_on r) (t, false) (ts, stop) (e, h) more =
      rw
        (
          pass-same (some (build_pre pre)) (some (build_post ctor)) n rs above r,
          h,
          ← append_assoc siblings (t ∷ []) ts,
        )
        more
  siblings_left n rs above siblings stack (goes_on r) (t, true) bs (e, h) more = cc
  siblings_left n rs above siblings stack (stopped_at m ns r) (t, true) bs h more = h
  siblings_left n rs above siblings stack (stopped_at m ns r) (t, false) bs (e, h) more = cc

  mutual
    unfolding visit built

    visit-built :
        (r : Rose N) (above : List N) (siblings : List T) (stack : List (List T))
        → Leaves above stack
            (visit builder r above (ok (siblings ∷ stack)))
            (after siblings (built ctor pre r))
    visit-built (rose n cs) above siblings stack =
        rw
          (
            builder-pre n above (siblings ∷ stack),
            enter-same (some (build_pre pre)) (some (build_post ctor)) cs n above
                (ok ([] ∷ siblings ∷ stack)),
          )
          (node_left n above siblings stack (step_of pre (some n)) _ (built_each ctor pre cs)
            (visit_each-built cs (n ∷ above) [] (siblings ∷ stack)))

    visit_each-built :
        (rs : Roses N) (above : List N) (siblings : List T) (stack : List (List T))
        → Leaves above stack
            (visit_each builder rs above (ok (siblings ∷ stack)))
            (after_all siblings (built_each ctor pre rs))
    visit_each-built nil above siblings stack =
        (refl, ap (λ ts. ok (ts ∷ stack)) (sym (append-nil siblings)))
    visit_each-built (cons r rs) above siblings stack =
        siblings_left (top r) rs above siblings stack
          (visit builder r above (ok (siblings ∷ stack))) (built ctor pre r)
          (built_each ctor pre rs) (visit-built r above siblings stack)
          (visit_each-built rs above (siblings ++ (built ctor pre r).0 ∷ []) stack)

  traverse-built :
      (rs : Roses N) (fl : Flow N (Result (List (List T)))) (bs : List T × Bool)
      → Leaves [] [] fl bs
      → (result builder fl).1 ≡ ok (bs.0 ∷ [])
  traverse-built rs (goes_on r) bs (e, h) = h
  traverse-built rs (stopped_at n ns r) bs (e, h) = h

  built_from :
      (o : Option (Option N × Result (List (List T)))) (w : Option N × Result (List (List T)))
      (ts : List T)
      → o ≡ some w
      → w.1 ≡ ok (ts ∷ [])
      → Option.map (λ r. r >>= λ p. retrieve_composition_term p.1) (Option.map outcome o)
        ≡ some (ok ts)
  unfolding retrieve_composition_term
  built_from o (n, r) ts e h = rw (e, h) refl

  -- `depth_first_build_trees` ends on a graph that is finite under its roots, with fuel for two
  -- turns a node, and its assertion holds. It builds each root's tree from its children's trees.
  -- Where `pre` says `step.over` a node has no children; after `step.out` nothing more is built
  -- but the node and its ancestors.
  pub depth_first_build_trees-built_each :
      (g : Graph N) (rs : Roses N) (fuel : ℕ)
      → g.roots ≡ tops rs
      → UnfoldsEach g rs
      → turns_each rs ≤ fuel
      → depth_first_build_trees g ctor pre fuel ≡ some (ok (built_each ctor pre rs).0)
  unfolding depth_first_build_trees depth_first_search_with adapt_visitor traverse
      build_tree_visitor
  depth_first_build_trees-built_each g rs fuel e u h =
      built_from _ _ (built_each ctor pre rs).0
        (depth_first_search-traverse builder g rs fuel (ok ([] ∷ [])) e u h)
        (traverse-built rs (visit_each builder rs [] (ok ([] ∷ []))) (built_each ctor pre rs)
          (visit_each-built rs [] [] []))
