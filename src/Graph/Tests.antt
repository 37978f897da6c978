-- ===== src/Graph/Tests.antt =====
-- The theorems on traversals, applied to small graphs and trees.
use maia.Base.{
  ℕ, ◌+◌, ◌==◌, ◌≡◌, refl, List, [], ◌∷◌, Bool, true, false, Option, none, some, if◌then◌else◌,
  Text, text, text_eq, arith,
}
use maia.Base.Result.{ok}
use maia.Pytree.Node.{Node, node, nil, cons, size}
use maia.Pytree.Sample.{leaf, left, tree}
use maia.Graph.Stack.{Step, into, over, out, Graph, Visitor, depth_first_search}
use maia.Graph.Traversal.{rose, Roses, UnfoldsEach, turns_each, traverse}
use maia.Graph.StackLaws.{depth_first_search-traverse}
use maia.Graph.Build.{depth_first_build, depth_first_build_trees}
use maia.Graph.BuildLaws.{built_each, depth_first_build_trees-built_each}
use maia.Graph.Cgns.{pytree_adaptor}
use maia.Graph.CgnsLaws.{fold, depth_first_build-fold}
use maia.Graph.Compare.{Arrays, is_same_value, is_same_tree}
use maia.Graph.Reorder.{Reordered, reordered, empty, put, here, there}
use maia.Graph.CompareLaws.{is_same_tree-Reordered}

-- Two roots, the first of which has two children.
abbrev graph : Graph ℕ
graph = record { roots = 1 ∷ 2 ∷ []; children = λ n. if n == 1 then 3 ∷ 4 ∷ [] else [] }

abbrev places : Roses ℕ
places =
    Roses.cons (rose 1 (Roses.cons (rose 3 Roses.nil) (Roses.cons (rose 4 Roses.nil) Roses.nil)))
      (Roses.cons (rose 2 Roses.nil) Roses.nil)

abbrev step_at : List (Option ℕ) → Option Step
step_at [] = none
step_at (none ∷ ns) = step_at ns
step_at (some n ∷ []) = if n == 4 then some out else some into
step_at (some n ∷ m ∷ ns) = step_at (m ∷ ns)

-- It notes every call, and stops the search at the node 4.
abbrev recorder : Visitor ℕ (List (ℕ × List (Option ℕ)))
recorder = record {
  pre = λ ns s. ((0, ns) ∷ s, step_at ns);
  post = λ ns s. (1, ns) ∷ s;
  down = λ ns s. (2, ns) ∷ s;
  up = λ ns s. (3, ns) ∷ s;
}

places-UnfoldsEach : UnfoldsEach graph places
unfolding UnfoldsEach
places-UnfoldsEach = ((refl, ((refl, tt), ((refl, tt), tt))), ((refl, tt), tt))

places_turns : turns_each places ≡ 8
unfolding turns_each
places_turns = refl

depth_first_search-traverse_example :
    depth_first_search recorder graph 8 [] ≡ some (traverse recorder places [])
depth_first_search-traverse_example =
    depth_first_search-traverse recorder graph places 8 [] refl places-UnfoldsEach
      (omega (places_turns, arith))

abbrev add_up : List ℕ → ℕ
add_up [] = 0
add_up (n ∷ ns) = n + add_up ns

abbrev total : Option ℕ → List ℕ → ℕ
total none ns = add_up ns
total (some n) ns = n + add_up ns

abbrev skip_three : Option ℕ → Option Step
skip_three none = none
skip_three (some n) = if n == 3 then some over else none

depth_first_build_trees-built_each_example :
    depth_first_build_trees graph total (some skip_three) 8
    ≡ some (ok (built_each total (some skip_three) places).0)
depth_first_build_trees-built_each_example =
    depth_first_build_trees-built_each total (some skip_three) graph places 8 refl
      places-UnfoldsEach (omega (places_turns, arith))

pub five_nodes : size tree ≡ 5
unfolding size
five_nodes = refl

abbrev count : Option (Node ℕ) → List ℕ → ℕ
count n ns = 1 + add_up ns

depth_first_build-fold_example :
    depth_first_build (pytree_adaptor tree) count none 10 ≡ some (ok (fold count tree))
depth_first_build-fold_example = depth_first_build-fold count tree 10 (omega (five_nodes, arith))

-- Values that are numbers of one type, compared exactly.
abbrev equal_to : ℕ → Option ℕ → Bool
equal_to v none = false
equal_to v (some w) = v == w

abbrev pub numbers : Arrays ℕ ℕ
numbers = record {
  value_type = λ v. text "I4";
  is_float = λ v. false;
  allclose = λ tol. equal_to;
  array_equal = equal_to;
}

numbers_same : (v : Option ℕ) → is_same_value numbers 0 false v v ≡ true
unfolding is_same_value text_eq
numbers_same none = refl
numbers_same (some v) = ground arith

-- The sample tree with the two children of its root swapped.
abbrev pub swapped : Node ℕ
swapped =
    node (text "Base") (some 3) (cons (leaf (text "ZoneC") (text "Zone_t")) (cons left nil))
      (text "CGNSBase_t")

leaf-Reordered : (n l : Text) → Reordered (leaf n l) (leaf n l)
leaf-Reordered n l = reordered n none l empty

left-Reordered : Reordered left left
unfolding text_eq
left-Reordered = reordered (text "ZoneA") none (text "Zone_t") (
    put (leaf-Reordered (text "Grid") (text "GridCoordinates_t"))
      (put (leaf-Reordered (text "ZoneB") (text "Zone_t")) empty here refl refl) here refl refl)

pub tree-Reordered : Reordered tree swapped
unfolding text_eq
tree-Reordered = reordered (text "Base") (some 3) (text "CGNSBase_t") (
    put left-Reordered (put (leaf-Reordered (text "ZoneC") (text "Zone_t")) empty here refl refl)
      (there here) refl refl)

is_same_tree-Reordered_example :
    is_same_tree numbers (λ x y. false) 0 false 10 tree swapped ≡ some (ok true)
is_same_tree-Reordered_example =
    is_same_tree-Reordered numbers 0 false numbers_same (λ x y. false) tree swapped 10
      tree-Reordered (omega (five_nodes, arith))
