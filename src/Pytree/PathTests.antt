-- ===== src/Pytree/PathTests.antt =====
-- Paths of two and three names: cut before the last, followed through a tree, removed.
use mathlib.Core.Option
use maia.Base.{ℕ, ◌≡◌, refl, ◌∷◌, ◌++◌, some, none, text, text_eq}
use maia.Base.Result.{ok}
use maia.Base.Int.{negsuc}
use maia.Pytree.Paths.{slash, split, join, cut, path_head}
use maia.Pytree.Node.{Node}
use maia.Pytree.Remove.Deep.{prune}
use maia.Pytree.Walk.Predicate.{match_name}
use maia.Pytree.Walk.PredicateTests.{libraries}
use maia.Pytree.ByPath.{get_node_from_path, rm_node_from_path, follow}
use maia.Pytree.ByPathLaws.{rm_node_from_path-prune}
use maia.Pytree.Sample.{tree, left}

head_run : path_head (text "Base/ZoneA/Grid") (negsuc 0) ≡ text "Base/ZoneA"
unfolding path_head split join cut
head_run = refl

zone_found : get_node_from_path tree (text "ZoneA") ≡ some left
unfolding get_node_from_path follow split text_eq Option.bind
zone_found = refl

rm_node_from_path-prune_example :
    (root' : Node ℕ) × (rm_node_from_path libraries (text "ZoneA" ++ (slash ∷ text "Grid")) tree
      ≡ ok root')
    × (get_node_from_path root' (text "ZoneA")
        ≡ some (prune (match_name libraries (text "Grid")) left))
    × (get_node_from_path root' (text "ZoneA" ++ (slash ∷ text "Grid")) ≡ none)
unfolding text_eq
rm_node_from_path-prune_example =
    rm_node_from_path-prune libraries (text "Grid") refl 90 (text "oneA") tree left refl zone_found
