-- ===== src/Sids/Groups.antt =====
-- The second half of `Tree.find_connected_zones` of `maia/pytree/sids/node_inspect.py`: the groups of
-- paths that share a path are merged.
use maia.Base.{ℕ, suc, zero, List, [], ◌∷◌, ◌++◌, Bool, if◌then◌else◌, map, Text, text_eq}
use maia.Base.Result.{Result, ok, raised, index_error, ◌>>=◌}
use maia.Utils.Lists.{contains, append_unique}
use maia.Graph.Zip.{text_lt, sorted}
use mathlib.Core.List.{reverse}

-- A group of zones, by their paths.
abbrev pub Group : Type 0
Group = List Text

-- `path in group`
abbrev pub has : Text → Group → Bool
has path group = contains text_eq group path

-- `for z_p in zones_paths: append_unique(new_group, z_p)`
unfoldable pub append_all : Group → List Text → Group
unfolding append_unique
append_all group [] = group
append_all group (p ∷ paths) = append_all (append_unique text_eq group p) paths

-- `groups_to_merge`: the places of the groups that hold the path, counted from `i`.
unfoldable pub places_of : Text → ℕ → List Group → List ℕ
places_of path i [] = []
places_of path i (g ∷ groups) =
    let rest = places_of path (suc i) groups in if has path g then i ∷ rest else rest

-- `groups.pop(i)`: what is popped, and the list afterwards.
unfoldable pub pop : List Group → ℕ → Result (Group × List Group)
pop [] i = raised index_error
pop (g ∷ groups) zero = ok (g, groups)
pop (g ∷ groups) (suc i) = pop groups i >>= λ r. ok (r.0, g ∷ r.1)

-- The loop over `groups_to_merge[::-1]`: the groups and `new_group` afterwards.
unfoldable pub pop_each : List ℕ → List Group → Group → Result (List Group × Group)
unfolding pop append_all
pop_each [] groups new_group = ok (groups, new_group)
pop_each (i ∷ is) groups new_group =
    pop groups i >>= λ r. pop_each is r.1 (append_all new_group r.0)

-- One turn of the loop over the zones, from the places of the groups to merge.
abbrev pub merge_places : List ℕ → List Group → Result (List Group)
merge_places [] groups = ok groups
merge_places (i ∷ is) groups = pop_each (reverse (i ∷ is)) groups [] >>= λ r. ok (r.0 ++ (r.1 ∷ []))

unfoldable pub merge_at : Text → List Group → Result (List Group)
unfolding places_of pop_each
merge_at path groups = merge_places (places_of path 0 groups) groups

unfoldable pub merge_each : List Text → List Group → Result (List Group)
unfolding merge_at
merge_each [] groups = ok groups
merge_each (path ∷ paths) groups = merge_at path groups >>= merge_each paths

unfoldable pub merge_zones : List Text → List Group → Result (List Group)
unfolding merge_each sorted text_lt
merge_zones paths groups = merge_each paths groups >>= λ merged. ok (map (sorted text_lt) merged)
