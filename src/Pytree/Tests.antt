-- ===== src/Pytree/Tests.antt =====
-- The theorems on removal and on the access to nodes, applied to a small tree.
use maia.Base.{
  ◌≡◌, refl, [], ◌∷◌, Bool, false, ◌&&◌, none, some, if◌then◌else◌, arith, Text, text, text_eq,
}
use maia.Base.Result.{ok, raised, value_error, runtime_error}
use maia.Pytree.Node.{node, nil, cons, get_children}
use maia.Pytree.Remove.{rm_nodes}
use maia.Pytree.Remove.Deep.{prune, prune_to, rm_nodes-prune, rm_nodes-prune_to}
use maia.Pytree.Access.{get_names, set_children, new_node, is_valid_name, is_valid_label, deep_copy}
use maia.Pytree.Access.Laws.{NodupNames, distinct_names, from_list, set_children_lem, new_node_lem}
use maia.Pytree.Access.Copies.{all_accepted, deep_copy_lem}
use maia.Pytree.Sample.{left, tree, is_zone}

rm_nodes-prune_example : rm_nodes is_zone none left ≡ prune is_zone left
rm_nodes-prune_example = rm_nodes-prune is_zone left

rm_nodes-prune_to_example : rm_nodes is_zone (some 1) tree ≡ prune_to is_zone 1 tree 1
rm_nodes-prune_to_example = rm_nodes-prune_to is_zone 1 tree (omega arith)

left-NodupNames : NodupNames (get_children left)
unfolding text_eq get_names
left-NodupNames = (refl, (refl, tt))

set_children_lem_example :
    set_children
      (tree ∷ left ∷ tree ∷ [])
      (node (text "Root") none (cons left nil) (text "CGNSTree_t"))
    ≡ (if distinct_names (tree ∷ left ∷ tree ∷ [])
        then (
          node (text "Root") none (from_list (tree ∷ left ∷ tree ∷ [])) (text "CGNSTree_t"),
          ok false,
        )
        else (node (text "Root") none (cons left nil) (text "CGNSTree_t"), raised runtime_error))
set_children_lem_example =
    set_children_lem (text "Root") none (cons left nil) (text "CGNSTree_t")
      (tree ∷ left ∷ tree ∷ [])

-- A label of the standard, for the test.
abbrev ends_in_t : Text → Bool
ends_in_t l = text_eq l (text "Zone_t")

new_node_lem_example :
    new_node ends_in_t (text "ZoneD") (text "Zone_t") (some 7) (left ∷ []) none ≡ (
      if is_valid_name (text "ZoneD") false && is_valid_label ends_in_t (text "Zone_t") false
      then (if distinct_names (left ∷ [])
          then ok (node (text "ZoneD") (some 7) (from_list (left ∷ [])) (text "Zone_t"), none)
          else raised runtime_error)
      else raised value_error)
new_node_lem_example = new_node_lem ends_in_t (text "ZoneD") (text "Zone_t") (some 7) (left ∷ [])

deep_copy_lem_example :
    deep_copy ends_in_t (λ n. n) left
    ≡ (if all_accepted ends_in_t (λ n. n) (λ n. refl) left then ok left else raised value_error)
deep_copy_lem_example = deep_copy_lem ends_in_t (λ n. n) (λ n. refl) left
