-- ===== src/Sids/ZonePresets.antt =====
-- The presets of `maia/pytree/node/presets.py` for trees, zones and what lies under them.
use maia.Base.{ℕ, List, [], ◌∷◌, Bool, false, ◌&&◌, Option, none, some, Text, text, text_mem}
use maia.Base.Result.{Result, ok, raised, ◌>>=◌}
use maia.Pytree.Node.{Node}
use maia.Sids.Arrays.{Arrays}
use maia.Sids.Building.{
  Built, Step, is_none, create, checked, grown, under, if_given, after_assert, steps, for_each,
}
use maia.Sids.Elements.{cgns_name_to_id}
use maia.Sids.Presets.{
  Field, allowed_bc, text_value, assert_first, with_value, add_array, add_fields, new_family_name,
  new_grid_location, new_grid_connectivity_type, new_index_array, new_index_range, new_data_array,
}

-- What the kind of a section may be given as.
pub data Kind (V : Type 0) : Type 0 where
  by_name : Text → Kind V
  by_number : ℕ → Kind V
  by_value : Option V → Kind V

-- The nodes that may say where a subset lies.
pub record Patch (V : Type 0) : Type 0 where
  pub point_range : Option V
  pub point_list : Option V

pub record Polygons (V : Type 0) : Type 0 where
  pub erange : Option V
  pub eso : Option V
  pub ec : Option V
  pub pe : Option V
  pub pepos : Option V

module _ {V : Type 0} (is_sids : Text → Bool) (arr : Arrays V) where
  -- `version` is the number as an array.
  abbrev tree_of : Built V → Built V
  tree_of (parent, raised e) = (none, raised e)
  tree_of (parent, ok (n, w)) =
      create is_sids (text "CGNSTree") (text "CGNSTree_t") none (n ∷ []) none

  unfoldable pub new_cgns_tree : V → Built V
  unfolding create
  new_cgns_tree version = tree_of (
      create is_sids (text "CGNSLibraryVersion") (text "CGNSLibraryVersion_t") (some version) []
        none)

  unfoldable pub new_cgns_base : Text → ℕ → ℕ → Option (Node V) → Built V
  unfolding create checked
  new_cgns_base name cell_dim phy_dim parent = checked parent (text "CGNSTree_t" ∷ []) (
      create is_sids name (text "CGNSBase_t") (some (arr.from_items (cell_dim ∷ phy_dim ∷ []))) []
        parent)

  -- `if family: new_FamilyName(family, parent=zone)`
  abbrev if_family : Option Text → Step V
  if_family none n = (n, ok false)
  if_family (some []) n = (n, ok false)
  if_family (some (c ∷ family)) n = under (new_family_name is_sids arr (c ∷ family) (text "")) n

  unfoldable pub new_zone : Text → Text → Option V → Option Text → Option (Node V) → Built V
  unfolding create checked grown steps new_family_name
  new_zone name type size family parent =
      assert_first is_sids arr
        (text_mem type
          (text "Null" ∷ text "UserDefined" ∷ text "Structured" ∷ text "Unstructured" ∷ []))
        parent
        (grown
          (checked parent (text "CGNSBase_t" ∷ [])
            (create is_sids name (text "Zone_t") size [] parent))
          (steps (
            under (
              create is_sids (text "ZoneType") (text "ZoneType_t") (text_value is_sids arr type) [])
            ∷ if_family family
            ∷ [])))

  abbrev kind_value : Kind V → Result (Option V)
  kind_value (by_name t) = cgns_name_to_id t >>= λ n. ok (some (arr.from_items (n ∷ 0 ∷ [])))
  kind_value (by_number n) = ok (some (arr.from_items (n ∷ 0 ∷ [])))
  kind_value (by_value v) = ok v

  unfoldable pub new_zone_bc : Option (Node V) → Built V
  unfolding create checked
  new_zone_bc parent =
      checked parent (text "Zone_t" ∷ [])
        (create is_sids (text "ZoneBC") (text "ZoneBC_t") none [] parent)

  unfoldable pub new_zone_grid_connectivity : Text → Option (Node V) → Built V
  unfolding create checked
  new_zone_grid_connectivity name parent =
      checked parent (text "Zone_t" ∷ [])
        (create is_sids name (text "ZoneGridConnectivity_t") none [] parent)

  -- The two nodes of a patch, where only one may be given.
  abbrev pub add_range : Text → Patch V → Step V
  add_range name patch = if_given patch.point_range (λ v.
      after_assert (is_none patch.point_list) (under (new_index_range is_sids arr name (some v))))

  abbrev pub add_list : Text → Patch V → Step V
  add_list name patch = if_given patch.point_list (λ v.
      after_assert (is_none patch.point_range) (under (new_index_array is_sids arr name (some v))))

  abbrev pub add_location : Option Text → Step V
  add_location loc = if_given loc (λ t. under (new_grid_location is_sids arr t))

  abbrev pub add_family : Option Text → Step V
  add_family family = if_given family (λ t. under (new_family_name is_sids arr t (text "")))

  -- The statements of `new_BC` on the created node.
  unfoldable pub bc_steps : Patch V → Option Text → Option Text → Step V
  unfolding steps new_grid_location new_family_name new_index_range new_index_array
  bc_steps patch loc family = steps (
      add_location loc
      ∷ add_family family
      ∷ add_range (text "PointRange") patch
      ∷ add_list (text "PointList") patch
      ∷ [])

  unfoldable pub new_bc :
      Text → Text → Patch V → Option Text → Option Text → Option (Node V) → Built V
  unfolding create checked grown bc_steps
  new_bc name type patch loc family parent =
      assert_first is_sids arr (text_mem type allowed_bc) parent (
        grown
          (checked parent (text "ZoneBC_t" ∷ [])
            (create is_sids name (text "BC_t") (text_value is_sids arr type) [] parent))
          (bc_steps patch loc family))

  abbrev donor_value : Option Text → Option V
  donor_value none = none
  donor_value (some t) = text_value is_sids arr t

  unfoldable pub new_grid_connectivity :
      Text → Option Text → Text → Option Text → Patch V → Patch V → Option (Node V) → Built V
  unfolding create checked grown steps new_grid_connectivity_type new_grid_location new_index_range
      new_index_array
  new_grid_connectivity name donor_name type loc patch donor parent =
      grown
        (checked parent (text "ZoneGridConnectivity_t" ∷ [])
          (create is_sids name (text "GridConnectivity_t") (donor_value donor_name) [] parent))
        (steps (
          under (new_grid_connectivity_type is_sids arr type)
          ∷ add_location loc
          ∷ add_range (text "PointRange") patch
          ∷ add_list (text "PointList") patch
          ∷ add_range (text "PointRangeDonor") donor
          ∷ add_list (text "PointListDonor") donor
          ∷ []))

  unfoldable pub new_grid_connectivity1to1 :
      Text → Option Text → Option V → Option V → Option V → Option (Node V) → Built V
  unfolding create checked grown steps new_index_range
  new_grid_connectivity1to1 name donor_name point_range point_range_donor transform parent =
      grown
        (checked parent (text "ZoneGridConnectivity_t" ∷ [])
          (create is_sids name (text "GridConnectivity1to1_t") (donor_value donor_name) [] parent))
        (steps (
          if_given transform (λ v.
            under (create is_sids (text "Transform") (text "\"int[IndexDimension]\"") (some v) []))
          ∷ if_given point_range
              (λ v. under (new_index_range is_sids arr (text "PointRange") (some v)))
          ∷ if_given point_range_donor
              (λ v. under (new_index_range is_sids arr (text "PointRangeDonor") (some v)))
          ∷ []))

  module _ (astype : Text → Option (V → V)) where
    unfoldable pub new_elements : Text → Kind V → Option V → Option V → Option (Node V) → Built V
    unfolding create checked grown steps new_data_array cgns_name_to_id
    new_elements name type erange econn parent =
        with_value is_sids arr astype parent (kind_value type) λ v.
          grown
            (checked parent (text "Zone_t" ∷ [])
              (create is_sids name (text "Elements_t") v [] parent))
            (steps (
              if_given erange (λ r.
                under (create is_sids (text "ElementRange") (text "IndexRange_t") (some r) []))
              ∷ if_given econn (add_array is_sids arr astype (text "ElementConnectivity"))
              ∷ []))

    unfoldable pub new_ngon_elements : Text → Polygons V → Option (Node V) → Built V
    unfolding new_elements grown steps new_data_array
    new_ngon_elements name p parent =
        grown (new_elements name (by_number 22) p.erange none parent) (
          steps (
            if_given p.eso (add_array is_sids arr astype (text "ElementStartOffset"))
            ∷ if_given p.ec (add_array is_sids arr astype (text "ElementConnectivity"))
            ∷ if_given p.pe (add_array is_sids arr astype (text "ParentElements"))
            ∷ if_given p.pepos (add_array is_sids arr astype (text "ParentElementsPosition"))
            ∷ []))

    unfoldable pub new_nface_elements :
        Text → Option V → Option V → Option V → Option (Node V) → Built V
    unfolding new_elements grown steps new_data_array
    new_nface_elements name erange eso ec parent =
        grown (new_elements name (by_number 23) erange none parent) (
          steps (
            if_given eso (add_array is_sids arr astype (text "ElementStartOffset"))
            ∷ if_given ec (add_array is_sids arr astype (text "ElementConnectivity"))
            ∷ []))

    -- The node of an array without a parent.
    abbrev array_node : Text → V → Result (Node V)
    array_node name v =
        (new_data_array is_sids arr astype name (some v) none none).1 >>= λ c. ok c.0

    abbrev periodic_from : Option (Node V) → Result (List (Node V)) → Built V
    periodic_from parent (raised e) = (parent, raised e)
    periodic_from parent (ok childs) =
        create is_sids (text "Periodic") (text "Periodic_t") none childs parent

    unfoldable pub new_periodic : V → V → V → Option (Node V) → Built V
    unfolding create new_data_array
    new_periodic rotation_angle rotation_center translation parent = periodic_from parent (
        array_node (text "RotationAngle") rotation_angle >>= λ angle.
        array_node (text "RotationCenter") rotation_center >>= λ center.
        array_node (text "Translation") translation >>= λ t. ok (angle ∷ center ∷ t ∷ []))

    -- `periodic` are the three arguments of `new_Periodic`, if there is any.
    unfoldable pub new_grid_connectivity_property : Option (V × V × V) → Option (Node V) → Built V
    unfolding create checked grown new_periodic
    new_grid_connectivity_property periodic parent =
        grown
          (checked parent (text "GridConnectivity_t" ∷ text "GridConnectivity1to1_t" ∷ []) (
            create is_sids (text "GridConnectivityProperty") (text "GridConnectivityProperty_t")
              none [] parent))
          (if_given periodic (λ p. under (new_periodic p.0 p.1 p.2)))

    abbrev add_descriptor : Text → Text → Step V
    add_descriptor name t =
        under (create is_sids name (text "Descriptor_t") (text_value is_sids arr t) [])

    unfoldable pub new_zone_sub_region :
        Text
        → Option Text
        → Patch V
        → Option Text
        → Option Text
        → Option Text
        → List (Field V)
        → Option (Node V)
        → Built V
    unfolding create checked grown steps for_each new_data_array new_grid_location new_family_name
        new_index_range new_index_array
    new_zone_sub_region name loc patch bc_name gc_name family fields parent =
        let no_range = is_none patch.point_range in
        let no_list = is_none patch.point_list in
        let no_bc = is_none bc_name in
        let no_gc = is_none gc_name in
        grown
          (checked parent (text "Zone_t" ∷ [])
            (create is_sids name (text "ZoneSubRegion_t") none [] parent))
          (steps (
            add_location loc
            ∷ add_family family
            ∷ if_given patch.point_range (λ v.
              after_assert (no_list && (no_bc && no_gc))
                (under (new_index_range is_sids arr (text "PointRange") (some v))))
            ∷ if_given patch.point_list (λ v.
              after_assert (no_range && (no_bc && no_gc))
                (under (new_index_array is_sids arr (text "PointList") (some v))))
            ∷ if_given bc_name (λ t.
              after_assert (no_list && (no_range && no_gc))
                (add_descriptor (text "BCRegionName") t))
            ∷ if_given gc_name (λ t.
              after_assert (no_list && (no_range && no_bc))
                (add_descriptor (text "GridConnectivityRegionName") t))
            ∷ add_fields is_sids arr astype fields
            ∷ []))
