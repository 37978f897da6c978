-- ===== src/Graph/DiffLaws.antt =====
-- A tree and a reordered copy of it have no difference for `diff_tree`.
use mathlib.Core.List.{reverse, reverse-cons}
use maia.Base.{
  ℕ, ◌*◌, ◌≤◌, ◌≡◌, refl, ap, sym, ◌∙◌, List, [], ◌∷◌, ◌++◌, Bool, true, false, Option, none, some,
  map, Text, text, text_eq, text_eq_self, arith,
}
use maia.Base.Result.{Result, ok, raised}
use maia.Pytree.Node.{Node, node, Children, get_name, size}
use maia.Graph.Stack.{into, Visitor}
use maia.Graph.Traversal.{
  Rose, Roses, top, UnfoldsEach, turns_each, goes_on, path, enter, pass, visit, visit_each,
  traverse, result,
}
use maia.Graph.StackLaws.{depth_first_search-traverse}
use maia.Graph.Visitors.{depth_first_search_with, adapt_visitor, complete_visitor, visitor_of}
use maia.Graph.Zip.{Pair, pytree_zip_adaptor}
use maia.Graph.Reorder.{Reordered, reordered, Permuted, empty, put}
use maia.Graph.Zipped.{zipped, zipped_each, top-zipped, Each, Each-insert_rose}
use maia.Graph.Compare.{Arrays, is_same_value_type}
use maia.Graph.CompareLaws.{zipped-Unfolds, turns-zipped}
use maia.Graph.Diff.{
  Report, Comparison, value_of, zip_path_loop, split_last, value_comparison_report, diff_named,
  diff_pair, diff_nodes, diff_pre, diff_tree_visitor, diff_tree,
}

abbrev pub no_difference : Report
no_difference = (true, [], [])

module _ {V : Type 0} where
  split_last-append :
      (ns : List (Option (Pair V))) (n : Option (Pair V)) → split_last (ns ++ n ∷ []) ≡ ok (ns, n)
  unfolding split_last
  split_last-append [] n = refl
  split_last-append (m ∷ []) n = refl
  split_last-append (m ∷ k ∷ ns) n = rw (split_last-append (k ∷ ns) n) refl

  -- At each place there are two nodes with one name.
  abbrev Matched : List (Option (Pair V)) → Type 0
  Matched [] = Unit
  Matched (none ∷ ns) = ⊥
  Matched (some (none, y) ∷ ns) = ⊥
  Matched (some (some x, none) ∷ ns) = ⊥
  Matched (some (some x, some y) ∷ ns) = (get_name x ≡ get_name y) × Matched ns

  zip_path_loop-Matched :
      (ns : List (Option (Pair V))) (start : Text)
      → Matched ns
      → (t : Text) × (zip_path_loop start ns ≡ ok t)
  unfolding zip_path_loop
  zip_path_loop-Matched [] start m = (start, refl)
  zip_path_loop-Matched (none ∷ ns) start m = elim m [ ]
  zip_path_loop-Matched (some (none, y) ∷ ns) start m = elim m [ ]
  zip_path_loop-Matched (some (some x, none) ∷ ns) start m = elim m [ ]
  zip_path_loop-Matched (some (some x, some y) ∷ ns) start (e, m) =
      let (t, h) = zip_path_loop-Matched ns (start ++ get_name x ++ text "/") m in
      (t, rw (ap (λ n. text_eq n (get_name y)) e ∙ text_eq_self (get_name y)) h)

  Matched-append : (ns ms : List (Option (Pair V))) → Matched ns → Matched ms → Matched (ns ++ ms)
  Matched-append [] ms m k = k
  Matched-append (none ∷ ns) ms m k = elim m [ ]
  Matched-append (some (none, y) ∷ ns) ms m k = elim m [ ]
  Matched-append (some (some x, none) ∷ ns) ms m k = elim m [ ]
  Matched-append (some (some x, some y) ∷ ns) ms (e, m) k = (e, Matched-append ns ms m k)

  Matched-reverse : (ns : List (Option (Pair V))) → Matched ns → Matched (reverse ns)
  Matched-reverse [] m = tt
  Matched-reverse (none ∷ ns) m = elim m [ ]
  Matched-reverse (some (none, y) ∷ ns) m = elim m [ ]
  Matched-reverse (some (some x, none) ∷ ns) m = elim m [ ]
  Matched-reverse (some (some x, some y) ∷ ns) (e, m) =
      rw (reverse-cons (some (some x, some y)) ns)
        (Matched-append (reverse ns) (some (some x, some y) ∷ []) (Matched-reverse ns m) (e, tt))

module _ {V T : Type 0} (np : Arrays V T) (comp : Comparison V) (strict : Bool) where
  -- What the search calls.
  abbrev differ : Visitor (Pair V) (Result Report)
  differ = visitor_of (
      complete_visitor
        (record { pre = some (diff_pre np comp strict); post = none; down = none; up = none }))

  unmoved :
      (ns : List (Option (Pair V))) (r : Result Report)
      → (differ.down ns r ≡ r) × (differ.up ns r ≡ r) × (differ.post ns r ≡ r)
  unfolding complete_visitor
  unmoved ns (raised e) = (refl, refl, refl)
  unmoved ns (ok s) = (refl, refl, refl)

  enter-all :
      (cs : Roses (Pair V)) (above : List (Pair V)) (r : Result Report)
      → enter differ cs above r ≡ r
  enter-all Roses.nil above r = refl
  enter-all (Roses.cons c cs) above r = (unmoved _ r).0

  pass-all :
      (n : Pair V) (rs : Roses (Pair V)) (above : List (Pair V)) (r : Result Report)
      → pass differ n rs above r ≡ r
  pass-all n rs [] r = refl
  pass-all n rs (a ∷ above) r = enter-all rs (a ∷ above) _ ∙ (unmoved _ r).1

  -- The caller's comparison has nothing to say on two nodes with one value.
  abbrev pub Agrees : Type 0
  Agrees =
      (ns : List (Option (Pair V))) (x y : Node V)
      → value_of x ≡ value_of y
      → comp.compare_values (ns ++ some (some x, some y) ∷ []) ≡ no_difference

  module _ (agrees : Agrees) where
    same_report :
        (ns : List (Option (Pair V))) (n : Text) (v : Option V) (cs ds : Children V) (l : Text)
        → value_comparison_report comp
            (ns ++ some (some (node n v cs l), some (node n v ds l)) ∷ [])
            v
            v
          ≡ ok no_difference
    unfolding value_comparison_report
    same_report ns n none cs ds l = refl
    same_report ns n (some v) cs ds l =
        ap ok (agrees ns (node n (some v) cs l) (node n (some v) ds l) refl)

    same_type : (v : Option V) (b : Bool) → is_same_value_type np v v b ≡ true
    unfolding is_same_value_type
    same_type v true = text_eq_self _
    same_type v false = text_eq_self _

    nothing_found :
        (ns : List (Option (Pair V))) (n : Text) (v : Option V) (cs ds : Children V) (l : Text)
        → Matched ns
        → diff_nodes np comp strict (ns ++ some (some (node n v cs l), some (node n v ds l)) ∷ [])
          ≡ ok (no_difference, into)
    unfolding diff_nodes diff_pair diff_named
    nothing_found ns n v cs ds l m =
        let (t, e) = zip_path_loop-Matched ns (text "/") m in
        rw
          (
            split_last-append ns (some (some (node n v cs l), some (node n v ds l))),
            e,
            text_eq_self n,
            text_eq_self l,
            same_type v strict,
            same_report ns n v cs ds l,
          )
          refl

    -- The visitor goes through the place and reports nothing.
    abbrev Quiet : Rose (Pair V) → Type 0
    Quiet r =
        (above : List (Pair V))
        → Matched (map (λ (n : Pair V). some n) above)
        → visit differ r above (ok no_difference) ≡ goes_on (ok no_difference)

    no_difference_among :
        (rs : Roses (Pair V))
        → Each Quiet rs
        → (above : List (Pair V)) → Matched (map (λ (n : Pair V). some n) above)
        → visit_each differ rs above (ok no_difference) ≡ goes_on (ok no_difference)
    unfolding visit_each
    no_difference_among Roses.nil q above m = refl
    no_difference_among (Roses.cons r rs) (q, qs) above m =
        rw (q above m, pass-all (top r) rs above (ok no_difference))
          (no_difference_among rs qs above m)

    differ-pre :
        (n : Text) (v : Option V) (cs ds : Children V) (l : Text) (above : List (Pair V))
        → Matched (map (λ (n : Pair V). some n) above)
        → differ.pre
            (path differ (some (node n v cs l), some (node n v ds l)) above)
            (ok no_difference)
          ≡ (ok no_difference, some into)
    unfolding complete_visitor
    differ-pre n v cs ds l above m =
        let ns = map (λ (n : Pair V). some n) above in
        rw
          (
            reverse-cons (some (some (node n v cs l), some (node n v ds l))) ns,
            nothing_found (reverse ns) n v cs ds l (Matched-reverse ns m),
          )
          refl

    mutual
      unfolding zipped visit

      no_difference_at : {c d : Node V} (r : Reordered c d) → Quiet (zipped r)
      no_difference_at (reordered n v l {cs} {ds} p) above m =
          let here : Pair V = (some (node n v cs l), some (node n v ds l)) in
          rw
            (
              differ-pre n v cs ds l above m,
              enter-all (zipped_each p) (here ∷ above) (ok no_difference),
              no_difference_among (zipped_each p) (no_difference_below p) (here ∷ above) (refl, m),
            )
            (ap goes_on (unmoved _ (ok no_difference)).2)

      no_difference_below : {cs ds : Children V} (p : Permuted cs ds) → Each Quiet (zipped_each p)
      no_difference_below empty = tt
      no_difference_below (put r p i h k) =
          Each-insert_rose Quiet (zipped r) (zipped_each p) (no_difference_at r)
            (no_difference_below p)

    traversed_same :
        (r : Rose (Pair V))
        → Quiet r
        → traverse differ (Roses.cons r Roses.nil) (ok no_difference) ≡ (none, ok no_difference)
    unfolding traverse
    traversed_same r q =
        ap (result differ) (no_difference_among (Roses.cons r Roses.nil) (q, tt) [] tt)

    -- `diff_tree` ends, raises nothing and reports no difference, no error and no warning between a
    -- tree and one that has its nodes with the children in another order under distinct names, with
    -- fuel for two turns a node, if the comparison reports nothing for two nodes with one value.
    pub diff_tree-Reordered :
        (rest : Node V → Node V → Bool) (t u : Node V) (fuel : ℕ)
        → Reordered t u
        → 2 * size t ≤ fuel
        → diff_tree np comp strict rest fuel t u ≡ some (ok no_difference)
    unfolding diff_tree depth_first_search_with adapt_visitor diff_tree_visitor pytree_zip_adaptor
        turns_each UnfoldsEach
    diff_tree-Reordered rest t u fuel r h =
        let e =
          depth_first_search-traverse differ (pytree_zip_adaptor rest (some t, some u))
            (Roses.cons (zipped r) Roses.nil) fuel (ok no_difference)
            (ap (λ n. n ∷ []) (sym (top-zipped r))) (zipped-Unfolds rest (some t, some u) r, tt)
            (omega (turns-zipped r, arith)) in
        rw (e, traversed_same (zipped r) (no_difference_at r)) refl
