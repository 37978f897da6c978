-- ===== src/Graph/DiffTests.antt =====
-- Comparisons of small trees with values that are numbers: two children swapped, a child renamed.
use maia.Utils.Sequences.{set_intersection_difference, split_loop, split_step}
use maia.Graph.Traversal.{Rose, rose, Roses, UnfoldsEach, turns_each}
use maia.Graph.Compare.{is_same_tree}
use maia.Graph.CompareAll.{all_same, is_same_tree-all_same}
use maia.Base.{
  text, ℕ, ◌==◌, ◌≡◌, refl, ap, ◌∙◌, List, [], ◌∷◌, Bool, true, false, Option, none, some, arith,
}
use maia.Base.Result.{ok}
use maia.Pytree.Node.{Node, node, cons, nil}
use maia.Pytree.Sample.{leaf, tree}
use maia.Graph.Zip.{
  Pair, pytree_zip_adaptor, get_sorted_children, sorted, insert, zip_lists, less_by_name, text_lt,
}
use maia.Graph.Tests.{numbers, swapped, tree-Reordered, five_nodes}
use maia.Graph.Diff.{Report, Comparison, value_of, diff_tree}
use maia.Graph.DiffLaws.{no_difference, Agrees, diff_tree-Reordered}

abbrev same_number : Option ℕ → Option ℕ → Bool
same_number none none = true
same_number none (some w) = false
same_number (some v) none = false
same_number (some v) (some w) = v == w

-- The two values at the last place.
abbrev compare_last : List (Option (Pair ℕ)) → Report
compare_last [] = no_difference
compare_last (none ∷ []) = no_difference
compare_last (some (none, y) ∷ []) = no_difference
compare_last (some (some x, none) ∷ []) = no_difference
compare_last (some (some x, some y) ∷ []) = (same_number (value_of x) (value_of y), [], [])
compare_last (n ∷ m ∷ ns) = compare_last (m ∷ ns)

abbrev comparison : Comparison ℕ
comparison = record { compare_values = compare_last; modify_name = none }

same_number_refl : (v : Option ℕ) → same_number v v ≡ true
same_number_refl none = refl
same_number_refl (some v) = ground arith

comparison-Agrees : Agrees numbers comparison true
comparison-Agrees [] x y e =
    ap (λ (b : Bool). (b, [], []))
      (ap (λ v. same_number v (value_of y)) e ∙ same_number_refl (value_of y))
comparison-Agrees (n ∷ []) x y e = comparison-Agrees [] x y e
comparison-Agrees (n ∷ m ∷ ns) x y e = comparison-Agrees (m ∷ ns) x y e

diff_tree-Reordered_example :
    diff_tree numbers comparison true (λ x y. false) 10 tree swapped ≡ some (ok no_difference)
diff_tree-Reordered_example =
    diff_tree-Reordered numbers comparison true comparison-Agrees (λ x y. false) tree swapped 10
      tree-Reordered (omega (five_nodes, arith))

-- Two trees of which one has a child `Grid` and the other a child `Flow`.
abbrev grid : Node ℕ
grid = leaf (text "Grid") (text "GridCoordinates_t")

abbrev flow : Node ℕ
flow = leaf (text "Flow") (text "FlowSolution_t")

abbrev with_child : Node ℕ → Node ℕ
with_child c = node (text "ZoneA") none (cons c nil) (text "Zone_t")

abbrev compared : Rose (Pair ℕ)
compared =
    rose (some (with_child grid), some (with_child flow))
      (Roses.cons (rose (some grid, some flow) Roses.nil) Roses.nil)

compared-UnfoldsEach :
    UnfoldsEach
      (pytree_zip_adaptor (λ x y. false) (some (with_child grid), some (with_child flow)))
      (Roses.cons compared Roses.nil)
unfolding UnfoldsEach pytree_zip_adaptor get_sorted_children sorted insert zip_lists
    set_intersection_difference split_loop split_step less_by_name text_lt
compared-UnfoldsEach = ((refl, ((refl, tt), tt)), tt)

four_turns : turns_each (Roses.cons compared Roses.nil) ≡ 4
unfolding turns_each
four_turns = refl

is_same_tree-all_same_example :
    is_same_tree numbers (λ x y. false) 0 false 4 (with_child grid) (with_child flow)
    ≡ some (ok (all_same numbers 0 false compared))
is_same_tree-all_same_example =
    is_same_tree-all_same numbers 0 false (λ x y. false) (with_child grid) (with_child flow)
      compared 4 refl compared-UnfoldsEach (omega (four_turns, arith))
