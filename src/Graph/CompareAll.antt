-- ===== src/Graph/CompareAll.antt =====
-- What `is_same_tree` decides: whether the nodes are the same at every place.
use mathlib.Core.Option
use mathlib.Core.List.{reverse}
use maia.Base.{
  ℕ, ◌≤◌, ◌≡◌, refl, ap, sym, ◌∙◌, map, List, [], ◌∷◌, Bool, true, false, ◌&&◌, Option, none, some,
  Bool-cases, inl, inr,
}
use maia.Base.Result.{Result, ok, ◌>>=◌}
use maia.Pytree.Node.{Node}
use maia.Graph.Stack.{Step, into, out, Visitor}
use maia.Graph.Traversal.{
  Rose, rose, Roses, top, UnfoldsEach, turns_each, Flow, goes_on, stopped_at, and_then, path, visit,
  visit_each, climb, traverse, result,
}
use maia.Graph.StackLaws.{depth_first_search-traverse}
use maia.Graph.Visitors.{
  outcome, depth_first_search_with, adapt_visitor, complete_visitor, close_ancestor_visitor,
}
use maia.Graph.QuietLaws.{ancestors_list-path, quiet, quiet-up, enter-same, pass-same}
use maia.Graph.Build.{one_argument}
use maia.Graph.Zip.{Pair, pytree_zip_adaptor}
use maia.Graph.Compare.{Arrays, is_same_node, same_step, same_pre, same_tree_visitor, is_same_tree}

module _ {V T : Type 0} (np : Arrays V T) (abs_tol : T) (type_tol : Bool) where
  -- There are two nodes, and they are the same.
  abbrev pub same_pair : Pair V → Bool
  same_pair (none, y) = false
  same_pair (some x, none) = false
  same_pair (some x, some y) = is_same_node np abs_tol type_tol x y

  unfoldable mutual
    pub all_same : Rose (Pair V) → Bool
    all_same (rose n cs) = same_pair n && each_same cs

    pub each_same : Roses (Pair V) → Bool
    each_same Roses.nil = true
    each_same (Roses.cons r rs) = all_same r && each_same rs

  -- What the search calls.
  abbrev judge : Visitor (Pair V) (Result Bool)
  judge =
      quiet
        (some (λ args is_same. one_argument args >>= λ ns. same_pre np abs_tol type_tol ns is_same))
        none

  abbrev decision : Bool → Bool × Option Step
  decision true = (true, some into)
  decision false = (false, some out)

  same_step-same_pair :
      (ns : Pair V) → same_step np abs_tol type_tol ns true ≡ decision (same_pair ns)
  unfolding same_step
  same_step-same_pair (none, y) = refl
  same_step-same_pair (some x, none) = refl
  same_step-same_pair (some x, some y) = elim (Bool-cases (is_same_node np abs_tol type_tol x y)) [
    | inl e ↦ rw e refl
    | inr e ↦ rw e refl
  ]

  judge-pre :
      (n : Pair V) (above : List (Pair V)) (b : Bool)
      → same_pair n ≡ b
      → judge.pre (path judge n above) (ok true) ≡ (ok (decision b).0, (decision b).1)
  unfolding close_ancestor_visitor complete_visitor
  judge-pre n above b e = rw (ancestors_list-path n above, same_step-same_pair n, e) refl

  judge-post : (ns : List (Option (Pair V))) (b : Bool) → judge.post ns (ok b) ≡ ok b
  unfolding close_ancestor_visitor complete_visitor
  judge-post ns b = refl

  -- The traversal goes on if all was the same, and else it was stopped with the answer.
  abbrev Answers : Bool → Flow (Pair V) (Result Bool) → Type 0
  Answers true fl = fl ≡ goes_on (ok true)
  Answers false fl = (n : Pair V) × (ns : List (Pair V)) × (fl ≡ stopped_at n ns (ok false))

  Answers-and_then :
      (a b : Bool) (fl : Flow (Pair V) (Result Bool))
      (more : Result Bool → Flow (Pair V) (Result Bool))
      → Answers a fl
      → Answers b (more (ok true))
      → Answers (a && b) (and_then fl more)
  Answers-and_then true b fl more h k = rw h k
  Answers-and_then false b fl more (n, ns, h) k = (n, ns, rw h refl)

  Answers-post :
      (b : Bool) (fl : Flow (Pair V) (Result Bool)) (ns : List (Option (Pair V)))
      → Answers b fl
      → Answers b (and_then fl (λ r. goes_on (judge.post ns r)))
  Answers-post true fl ns h = rw h (ap goes_on (judge-post ns true))
  Answers-post false fl ns (n, above, h) = (n, above, rw h refl)

  mutual
    unfolding all_same visit

    all_same-Answers :
        (r : Rose (Pair V)) (above : List (Pair V))
        → Answers (all_same r) (visit judge r above (ok true))
    all_same-Answers (rose n cs) above = elim (Bool-cases (same_pair n)) [
      | inl e ↦
          rw (e, judge-pre n above true e, enter-same _ none cs n above (ok true))
            (Answers-post (each_same cs) _ (reverse (map (λ (m : Pair V). some m) (n ∷ above)))
              (each_same-Answers cs (n ∷ above)))
      | inr e ↦ rw (e, judge-pre n above false e) (n, above, refl)
    ]

    each_same-Answers :
        (rs : Roses (Pair V)) (above : List (Pair V))
        → Answers (each_same rs) (visit_each judge rs above (ok true))
    each_same-Answers Roses.nil above = refl
    each_same-Answers (Roses.cons r rs) above =
        Answers-and_then (all_same r) (each_same rs) (visit judge r above (ok true)) _
          (all_same-Answers r above)
          (rw (pass-same _ none (top r) rs above (ok true)) (each_same-Answers rs above))

  climb_same : (n : Pair V) (above : List (Pair V)) (b : Bool) → climb judge n above (ok b) ≡ ok b
  unfolding climb
  climb_same n [] b = judge-post _ b
  climb_same n (a ∷ above) b =
      ap (climb judge a above) (quiet-up _ none n a above _ ∙ judge-post _ b) ∙ climb_same a above b

  result-Answers :
      (b : Bool) (fl : Flow (Pair V) (Result Bool)) → Answers b fl → (result judge fl).1 ≡ ok b
  result-Answers true fl h = rw h refl
  result-Answers false fl (n, ns, h) = rw h (climb_same n ns false)

  same_found :
      (o : Option (Option (Pair V) × Result Bool)) (w : Option (Pair V) × Result Bool) (b : Bool)
      → o ≡ some w
      → w.1 ≡ ok b
      → Option.map
          (λ (r : Result (Option (Pair V) × Bool)). r >>= λ found. ok found.1)
          (Option.map outcome o)
        ≡ some (ok b)
  same_found o (n, r) b e h = rw (e, h) refl

  only_one : (r : Rose (Pair V)) → each_same (Roses.cons r Roses.nil) ≡ all_same r
  unfolding all_same
  only_one r = elim (Bool-cases (all_same r)) [ inl e ↦ rw e refl | inr e ↦ rw e refl ]

  -- Where the search through the two trees unfolds to a finite tree of places, `is_same_tree` ends,
  -- with fuel for two turns a place, and raises nothing. It answers `True` exactly if at every place
  -- there are two nodes and they are the same.
  pub is_same_tree-all_same :
      (rest : Node V → Node V → Bool) (t u : Node V) (r : Rose (Pair V)) (fuel : ℕ)
      → top r ≡ (some t, some u)
      → UnfoldsEach (pytree_zip_adaptor rest (some t, some u)) (Roses.cons r Roses.nil)
      → turns_each (Roses.cons r Roses.nil) ≤ fuel
      → is_same_tree np rest abs_tol type_tol fuel t u ≡ some (ok (all_same r))
  unfolding is_same_tree depth_first_search_with adapt_visitor same_tree_visitor pytree_zip_adaptor
      traverse visit_each
  is_same_tree-all_same rest t u r fuel e us h =
      let one = Roses.cons r Roses.nil in
      same_found _ _ (all_same r)
        (depth_first_search-traverse judge (pytree_zip_adaptor rest (some t, some u))
          (Roses.cons r Roses.nil) fuel (ok true) (ap (λ n. n ∷ []) (sym e)) us h)
        (result-Answers (each_same one) (visit_each judge one [] (ok true))
            (each_same-Answers one [])
          ∙ ap ok (only_one r))
