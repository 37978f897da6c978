-- ===== src/Sids/InspectTests.antt =====
-- Runs of the inspection of nodes, and the theorems on it at small inputs.
use maia.Base.{
  ℕ, zero, suc, ◌*◌, ◌-◌, ◌≡◌, refl, sym, ◌∙◌, List, [], ◌∷◌, Bool, true, false, Option, none, some,
  Text, text, text_eq, text_eq_iff, leb→le, ltb→lt, arith, Bool-cases, inl, inr,
}
use maia.Base.Int.{ℤ, pos, negsuc}
use maia.Base.Result.{ok, raised, assertion_error}
use maia.Numbering.Block.{vertex, cell_center, k_face_center}
use maia.Numbering.Int32.{int32}
use maia.Numbering.Structured.{ijk_to_index_from_loc}
use maia.Pytree.Access.{is_valid_name, append_child, get_names}
use maia.Pytree.Node.{Node, node, nil, cons}
use maia.Sids.Arrays.{get_text}
use maia.Base.Int.{ℤ, pos, negsuc}
use maia.Sids.TransformLaws.{counting, column, IsTransform, row, dot, matrix_of-orthogonal}
use maia.Sids.Building.{is_long}
use maia.Sids.BcNodes.{new_bc-attached}
use maia.Sids.Components.{All, IsKept, AreApart, IsRelated, merge_zones-components}
use maia.Sids.Element
use maia.Sids.Groups.{Group, has, merge_zones}
use maia.Sids.LiteralLaws.{has_wildcard}
use maia.Sids.PresetLaws.{patch_node, new_bc-inspected}
use maia.Sids.Sample.{
  Array, chars, vector, matrix, arrays, libraries, joined_zones, hexa_section, block, sizes_of,
  structured_type,
}
use maia.Sids.Subset.{get_patch, grid_location}
use maia.Sids.Tree.{find_connected_zones}
use maia.Sids.Zone
use maia.Sids.ZoneLaws.{block_size, structured_counts}
use maia.Sids.ZonePresets.{new_bc}

same_pattern :
    (s pattern : Text) → has_wildcard pattern ≡ false → text_eq s pattern ≡ text_eq s pattern
same_pattern s pattern h = refl

connected_run :
    find_connected_zones libraries arrays joined_zones
    ≡ ok (some ((text "Base/Zone2" ∷ []) ∷ (text "Base/Zone1" ∷ text "Base/Zone3" ∷ []) ∷ []))
unfolding find_connected_zones maia.Base.text_eq maia.Pytree.Walk.ChainWalker.call_walkers
    maia.Pytree.Walk.ChainWalker.new_walkers maia.Pytree.Walk.Chains.iter_lineages
    mathlib.Core.Option.bind maia.Pytree.Walk.Walker.parse maia.Pytree.Walk.Walker.fresh_shallow
    maia.Pytree.Walk.ShallowIterator.shallow_range_dfs maia.Pytree.Walk.Options.cond1
    maia.Pytree.Walk.ShallowIterator.shallow_range_dfs_below maia.Pytree.Access.is_valid_label
    maia.Pytree.Walk.Chains.iter_nodes
connected_run = refl

section_run : Element.size libraries arrays hexa_section ≡ ok (pos 20)
unfolding Element.size maia.Base.text_eq mathlib.Core.Option.bind
section_run = refl

face_run :
    Zone.face_size libraries arrays block ≡ ok (Zone.faces_per_direction (pos 55 ∷ pos 60 ∷ []))
unfolding Zone.face_size maia.Base.text_eq mathlib.Core.Option.bind
face_run = refl

structured_counts_example :
    (Zone.n_vtx libraries arrays
        (node (text "Block") (some (sizes_of 3 2 4)) structured_type (text "Zone_t"))
      ≡ ijk_to_index_from_loc int32 4 3 5 vertex (block_size 3 2 4))
    × (Zone.n_cell libraries arrays
          (node (text "Block") (some (sizes_of 3 2 4)) structured_type (text "Zone_t"))
        ≡ ijk_to_index_from_loc int32 3 2 4 cell_center (block_size 3 2 4))
    × (k : ℕ) × (Zone.n_face libraries arrays
          (node (text "Block") (some (sizes_of 3 2 4)) structured_type (text "Zone_t"))
        ≡ ok (pos k))
    × (ijk_to_index_from_loc int32 3 2 5 k_face_center (block_size 3 2 4) ≡ ok k)
unfolding Zone.zone_type maia.Base.text_eq mathlib.Core.Option.bind
structured_counts_example =
    structured_counts libraries arrays (text "Block") (sizes_of 3 2 4) structured_type 3 2 4
      (0 ∷ []) (0 ∷ []) (0 ∷ []) refl refl (leb→le _ _ refl) (leb→le _ _ refl) (leb→le _ _ refl)
      (ltb→lt _ _ refl)

new_bc-inspected_example :
    (n : Node Array) × (new_bc libraries.is_sids arrays
        (text "Wall")
        (text "BCWall")
        (record { point_range = none; point_list = some (matrix ((1 ∷ 5 ∷ []) ∷ [])) })
        (some (text "FaceCenter"))
        (some (text "WALL"))
        none
      ≡ (none, ok (n, is_long (text "Wall"))))
    × (get_patch libraries arrays n
        ≡ patch_node libraries arrays same_pattern none (some (matrix ((1 ∷ 5 ∷ []) ∷ []))))
    × (grid_location libraries arrays n ≡ ok (some (text "FaceCenter")))
    × (get_text arrays n ≡ some (text "BCWall"))
unfolding maia.Base.text_eq is_valid_name maia.Sids.Presets.can_reshape
new_bc-inspected_example =
    new_bc-inspected libraries arrays same_pattern (λ t h. refl) (text "Wall") (text "BCWall") none
      (some (matrix ((1 ∷ 5 ∷ []) ∷ []))) (some (text "FaceCenter")) (some (text "WALL")) refl refl
      refl refl refl

-- Zones `a`, `b` and `d` are connected, and `c` is alone.
abbrev together : Group
together = text "a" ∷ text "b" ∷ text "d" ∷ []

abbrev IsAlike : Text → Text → Type 0
IsAlike s t = has s together ≡ has t together

abbrev first_groups : List Group
first_groups = (text "a" ∷ text "b" ∷ []) ∷ (text "c" ∷ []) ∷ (text "d" ∷ text "b" ∷ []) ∷ []

in_together_first : (s : Text) → has s (text "a" ∷ text "b" ∷ []) ≡ true → has s together ≡ true
in_together_first s m = ground arith

in_together_last : (s : Text) → has s (text "d" ∷ text "b" ∷ []) ≡ true → has s together ≡ true
in_together_last s m = ground arith

alone : (s : Text) → has s (text "c" ∷ []) ≡ true → has s together ≡ false
unfolding text_eq
alone s m = elim (Bool-cases (text_eq (text "c") s)) [
  | inl e ↦ let c : text "c" ≡ s = (text_eq_iff (text "c") s).0 e in rw (← c) refl
  | inr e ↦ let z = rw e at m in cc
]

groups-IsAlike : All (IsRelated IsAlike) first_groups
groups-IsAlike = (
  λ s t m k. in_together_first s m ∙ sym (in_together_first t k),
  (
    λ s t m k. alone s m ∙ sym (alone t k),
    (λ s t m k. in_together_last s m ∙ sym (in_together_last t k), tt),
  ),
)

merge_zones-components_example :
    (merged : List Group) × (merge_zones (text "a" ∷ text "c" ∷ []) first_groups ≡ ok merged)
    × All (λ g. IsKept g merged) first_groups
    × AreApart (text "a" ∷ text "c" ∷ []) merged
    × All (IsRelated IsAlike) merged
merge_zones-components_example =
    merge_zones-components IsAlike (λ s t h. sym h) (λ s t u h k. h ∙ k) (text "a" ∷ text "c" ∷ [])
      first_groups groups-IsAlike

-- Both a range and a list: the boundary condition stays in the parent without a patch.
new_bc-attached_example :
    new_bc libraries.is_sids arrays
      (text "Wall")
      (text "BCWall")
      (record {
        point_range = some (vector (1 ∷ 2 ∷ []));
        point_list = some (matrix ((1 ∷ 5 ∷ []) ∷ []));
      })
      (some (text "FaceCenter"))
      none
      (some (node (text "ZBC") none (cons block nil) (text "Zone_t")))
    ≡ (
      some (
          node
            (text "ZBC")
            none
            (append_child (cons block nil) (
              node
                (text "Wall")
                (some (chars (text "BCWall")))
                (cons
                  (node
                    (text "GridLocation")
                    (some (chars (text "FaceCenter")))
                    nil
                    (text "GridLocation_t"))
                  nil)
                (text "BC_t")))
            (text "Zone_t")),
      raised assertion_error,
    )
unfolding maia.Base.text_eq is_valid_name get_names maia.Sids.Presets.can_reshape
new_bc-attached_example =
    new_bc-attached libraries.is_sids arrays (text "Wall") (text "BCWall")
      (some (vector (1 ∷ 2 ∷ []))) (some (matrix ((1 ∷ 5 ∷ []) ∷ []))) (some (text "FaceCenter"))
      none refl refl refl refl (text "ZBC") none (cons block nil) (text "Zone_t") refl

-- The transform of two blocks whose first direction is the second one of the other, backwards.
abbrev turned : List ℤ
turned = negsuc 1 ∷ pos 1 ∷ pos 3 ∷ []

turned-IsTransform : IsTransform turned
turned-IsTransform zero h = refl
turned-IsTransform (suc zero) h = refl
turned-IsTransform (suc (suc zero)) h = refl
turned-IsTransform (suc (suc (suc k))) h = absurd (omega arith)

matrix_of-orthogonal_example :
    (dot (row turned 0) (row turned 1) ≡ pos 0) × (dot (counting 3) (column turned 0) ≡ negsuc 1)
matrix_of-orthogonal_example =
    matrix_of-orthogonal turned 0 1 turned-IsTransform (omega arith) (omega arith) (omega arith)
