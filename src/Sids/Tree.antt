-- ===== src/Sids/Tree.antt =====
-- The class `Tree` of `maia/pytree/sids/node_inspect.py`: the zones that joins connect, and the
-- periodic joins of a tree. A search that may not end answers `none`.
use maia.Base.{
  List, [], ◌∷◌, ◌++◌, Bool, false, ◌&&◌, ◌||◌, not, Option, none, some, if◌then◌else◌, Text, text,
  text_eq, text_mem,
}
use maia.Base.Int.{negsuc}
use maia.Base.Result.{Result, ok, ok_or, ◌>>=◌}
use maia.Pytree.Node.{Node}
use maia.Pytree.ByPath.{get_node_from_path}
use maia.Pytree.Paths.{path_head, child_search, predicates_to_paths}
use maia.Pytree.Walk.Api.{iter_nodes_from_predicates}
use maia.Pytree.Walk.ChainWalker.{Answer, nodes, lineages}
use maia.Pytree.Walk.Predicate.{Libraries, Query, by_text, callable, auto_predicate}
use maia.Sids.Arrays.{Arrays, get_label, not_none, each, check_is_label, get_child_from_label}
use maia.Sids.GridConnectivity
use maia.Sids.Groups.{Group, merge_zones}
use maia.Utils.Lists.{append_unique}

abbrev label : Text
label = text "CGNSTree_t"

-- Go on with what a search found, if it ended.
abbrev on_found : {A B : Type 0} → Option A → (A → Result (Option B)) → Result (Option B)
on_found none k = ok none
on_found (some a) k = k a

module _ {V : Type 0} (lib : Libraries V) (arr : Arrays V) where
  unfoldable pub paths_from : Node V → List (Query V) → Result (Option (List Text))
  unfolding each auto_predicate predicates_to_paths
  paths_from root queries = each (auto_predicate lib) queries >>= predicates_to_paths root

  abbrev pub matching_gcs : Node V → Bool
  matching_gcs n =
      ((text_eq (get_label n) (text "GridConnectivity_t")
          && ok_or false (GridConnectivity.is1to1 lib arr n))
        || text_eq (get_label n) (text "GridConnectivity1to1_t"))
      && not (
          GridConnectivity.is_there lib arr
            (get_child_from_label lib n (text "GridConnectivityProperty_t")))

  -- The loop over the joins of a zone.
  unfoldable pub add_donors : Text → List (Node V) → Group → Result Group
  unfolding append_unique GridConnectivity.zone_donor_path path_head
  add_donors zone_path [] group = ok group
  add_donors zone_path (gc ∷ gcs) group =
      GridConnectivity.zone_donor_path lib arr gc (path_head zone_path (negsuc 0))
      >>= λ opp_zone_path. add_donors zone_path gcs (append_unique text_eq group opp_zone_path)

  abbrev found_nodes : Answer V → List (Node V)
  found_nodes (nodes ns) = ns
  found_nodes (lineages ls) = []

  -- The group of a zone.
  unfoldable pub group_of : Node V → Text → Result (Option Group)
  unfolding get_node_from_path auto_predicate iter_nodes_from_predicates add_donors
      GridConnectivity.is1to1 get_child_from_label
  group_of tree zone_path = do
    zone ← not_none (get_node_from_path tree zone_path)
    p ← auto_predicate lib (by_text (text "ZoneGridConnectivity_t"))
    found ← iter_nodes_from_predicates child_search false (p ∷ matching_gcs ∷ []) zone
    on_found found
        λ answer. add_donors zone_path (found_nodes answer) (zone_path ∷ []) >>= λ g. ok (some g)

  unfoldable pub groups_of : Node V → List Text → Result (Option (List Group))
  unfolding group_of
  groups_of tree [] = ok (some [])
  groups_of tree (path ∷ paths) = group_of tree path >>= λ g.
      on_found g
        λ group. groups_of tree paths >>= λ gs. on_found gs λ groups. ok (some (group ∷ groups))

  unfoldable pub find_connected_zones : Node V → Result (Option (List Group))
  unfolding paths_from groups_of merge_zones
  find_connected_zones tree = check_is_label label tree (
      paths_from tree (by_text (text "CGNSBase_t") ∷ by_text (text "Zone_t") ∷ []) >>= λ found.
      on_found found λ paths. groups_of tree paths >>= λ gs.
      on_found gs λ groups. merge_zones paths groups >>= λ merged. ok (some merged))

  -- `allclose` is `np.allclose`, with the tolerances.
  module _ (allclose : Option V → Option V → Bool) where
    -- A value of the periodic joins, with the paths of the joins that have it.
    abbrev pub PeriodicGroup : Type 0
    PeriodicGroup = GridConnectivity.PeriodicValues V × List Text

    abbrev pub same_values :
        GridConnectivity.PeriodicValues V → GridConnectivity.PeriodicValues V → Bool
    same_values (a, b, c) (a', b', c') = allclose a a' && (allclose b b' && allclose c c')

    -- The loop over `perio_values`, and its `else`.
    unfoldable pub add_join :
        GridConnectivity.PeriodicValues V → Text → List PeriodicGroup → List PeriodicGroup
    add_join perio jn_path [] = (perio, jn_path ∷ []) ∷ []
    add_join perio jn_path ((perio_value, jns) ∷ groups) =
        if same_values perio_value perio
        then (perio_value, jns ++ (jn_path ∷ [])) ∷ groups
        else (perio_value, jns) ∷ add_join perio jn_path groups

    unfoldable pub add_joins : Node V → List Text → List PeriodicGroup → Result (List PeriodicGroup)
    unfolding get_node_from_path GridConnectivity.periodic_values add_join
    add_joins tree [] groups = ok groups
    add_joins tree (jn_path ∷ paths) groups = do
      jn ← not_none (get_node_from_path tree jn_path)
      perio ← GridConnectivity.periodic_values lib arr jn
      add_joins tree paths (add_join perio jn_path groups)

    abbrev is_jn_perio : Node V → Bool
    is_jn_perio n =
        text_mem (get_label n) GridConnectivity.labels
        && ok_or false (GridConnectivity.isperiodic lib arr n)

    unfoldable pub find_periodic_jns : Node V → Result (Option (List PeriodicGroup))
    unfolding paths_from add_joins GridConnectivity.isperiodic
    find_periodic_jns tree = check_is_label label tree (
        paths_from tree (
          by_text (text "CGNSBase_t")
          ∷ by_text (text "Zone_t")
          ∷ by_text (text "ZoneGridConnectivity_t")
          ∷ callable is_jn_perio
          ∷ [])
        >>= λ found. on_found found λ paths. add_joins tree paths [] >>= λ groups. ok (some groups))
