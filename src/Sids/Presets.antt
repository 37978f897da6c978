-- ===== src/Sids/Presets.antt =====
-- The presets of `maia/pytree/node/presets.py` for the small nodes: texts, indices and arrays.
use maia.Base.{
  ℕ, ◌==◌, List, [], ◌∷◌, Bool, true, false, Option, none, some, if◌then◌else◌, not, Text, text,
  text_mem,
}
use maia.Base.Result.{Result, ok, raised, assertion_error, value_error, key_error, attribute_error}
use maia.Pytree.Node.{Node}
use maia.Pytree.Access.{set_value}
use maia.Sids.Arrays.{Arrays}
use maia.Sids.Building.{
  Built, is_none, Step, create, checked, grown, under, if_given, steps, for_each,
}

abbrev pub allowed_bc : List Text
allowed_bc =
    text "Null"
    ∷ text "UserDefined"
    ∷ text "BCAxisymmetricWedge"
    ∷ text "BCDegenerateLine"
    ∷ text "BCDegeneratePoint"
    ∷ text "BCDirichlet"
    ∷ text "BCExtrapolate"
    ∷ text "BCFarfield"
    ∷ text "BCGeneral"
    ∷ text "BCInflow"
    ∷ text "BCInflowSubsonic"
    ∷ text "BCInflowSupersonic"
    ∷ text "BCNeumann"
    ∷ text "BCOutflow"
    ∷ text "BCOutflowSubsonic"
    ∷ text "BCOutflowSupersonic"
    ∷ text "BCSymmetryPlane"
    ∷ text "BCSymmetryPolar"
    ∷ text "BCTunnelInflow"
    ∷ text "BCTunnelOutflow"
    ∷ text "BCWall"
    ∷ text "BCWallInviscid"
    ∷ text "BCWallViscous"
    ∷ text "BCWallViscousHeatFlux"
    ∷ text "BCWallViscousIsothermal"
    ∷ text "FamilySpecified"
    ∷ []

abbrev pub allowed_gc : List Text
allowed_gc =
    text "Null" ∷ text "UserDefined" ∷ text "Overset" ∷ text "Abutting" ∷ text "Abutting1to1" ∷ []

abbrev pub allowed_loc : List Text
allowed_loc =
    text "Null"
    ∷ text "UserDefined"
    ∷ text "Vertex"
    ∷ text "EdgeCenter"
    ∷ text "CellCenter"
    ∷ text "IFaceCenter"
    ∷ text "JFaceCenter"
    ∷ text "KFaceCenter"
    ∷ text "FaceCenter"
    ∷ []

-- The labels of the parents that a node of some kind is expected under.
abbrev index_array_parents : List Text
index_array_parents =
    text "BC_t"
    ∷ text "BCDataSet_t"
    ∷ text "DiscreteData_t"
    ∷ text "FlowSolution_t"
    ∷ text "GridConnectivity_t"
    ∷ text "OversetHoles_t"
    ∷ text "UserDefinedData_t"
    ∷ text "ZoneSubRegion_t"
    ∷ []

abbrev index_range_parents : List Text
index_range_parents =
    text "BC_t"
    ∷ text "BCDataSet_t"
    ∷ text "DiscreteData_t"
    ∷ text "FlowSolution_t"
    ∷ text "GridConnectivity_t"
    ∷ text "GridConnectivity1to1_t"
    ∷ text "OversetHoles_t"
    ∷ text "UserDefinedData_t"
    ∷ text "ZoneSubRegion_t"
    ∷ []

abbrev location_parents : List Text
location_parents =
    text "ArbitraryGridMotion_t"
    ∷ text "BCDataSet_t"
    ∷ text "BC_t"
    ∷ text "DiscreteData_t"
    ∷ text "FlowSolution_t"
    ∷ text "GridConnectivity_t"
    ∷ text "OversetHoles_t"
    ∷ text "UserDefinedData_t"
    ∷ text "ZoneSubRegion_t"
    ∷ []

abbrev family_parents : List Text
family_parents =
    text "Family_t"
    ∷ text "UserDefinedData_t"
    ∷ text "ZoneSubRegion_t"
    ∷ text "BC_t"
    ∷ text "Zone_t"
    ∷ []

abbrev data_array_parents : List Text
data_array_parents =
    text "BCData_t"
    ∷ text "BaseIterativeData_t"
    ∷ text "ChemicalKineticsModel_t"
    ∷ text "ConvergenceHistory_t"
    ∷ text "DiscreteData_t"
    ∷ text "Elements_t"
    ∷ text "EMConductivityModel_t"
    ∷ text "EMElectricFieldModel_t"
    ∷ text "EMMagneticFieldModel_t"
    ∷ text "FlowSolution_t"
    ∷ text "GasModel_t"
    ∷ text "GridCoordinates_t"
    ∷ text "Periodic_t"
    ∷ text "ReferenceState_t"
    ∷ text "RigidGridMotion_t"
    ∷ text "ThermalConductivityModel_t"
    ∷ text "ThermalRelaxationModel_t"
    ∷ text "TurbulenceClosure_t"
    ∷ text "TurbulenceModel_t"
    ∷ text "UserDefinedData_t"
    ∷ text "ViscosityModel_t"
    ∷ text "ZoneIterativeData_t"
    ∷ text "ZoneSubRegion_t"
    ∷ []

-- A field of a container: its name and its value.
abbrev pub Field : Type 0 → Type 0
Field V = Text × V

-- `is_sids` are the labels of the build. Values that are not texts are taken as arrays.
module _ {V : Type 0} (is_sids : Text → Bool) (arr : Arrays V) where
  abbrev pub text_value : Text → Option V
  text_value t = some (arr.from_text t)

  -- `assert test`, and then the call.
  abbrev pub assert_first : Bool → Option (Node V) → Built V → Built V
  assert_first false parent built = (parent, raised assertion_error)
  assert_first true parent built = built

  unfoldable pub new_family_bc : Text → Option (Node V) → Built V
  unfolding create
  new_family_bc family_bc parent =
      assert_first (text_mem family_bc allowed_bc) parent
        (create is_sids (text "FamilyBC") (text "FamilyBC_t") (text_value family_bc) [] parent)

  -- `as_additional` is empty by default.
  unfoldable pub new_family_name : Text → Text → Option (Node V) → Built V
  unfolding create checked
  new_family_name family_name [] parent =
      checked parent family_parents (
        create is_sids (text "FamilyName") (text "FamilyName_t") (text_value family_name) [] parent)
  new_family_name family_name (c ∷ as_additional) parent = checked parent family_parents (
      create is_sids (c ∷ as_additional) (text "AdditionalFamilyName_t") (text_value family_name) []
        parent)

  unfoldable pub new_family : Text → Option Text → Option (Node V) → Built V
  unfolding create checked grown steps new_family_bc
  new_family name family_bc parent =
      grown
        (checked parent (text "CGNSBase_t" ∷ [])
          (create is_sids name (text "Family_t") none [] parent))
        (if_given family_bc (λ t. under (new_family_bc t)))

  unfoldable pub new_grid_location : Text → Option (Node V) → Built V
  unfolding create checked
  new_grid_location loc parent = assert_first (text_mem loc allowed_loc) parent (
      checked parent location_parents
        (create is_sids (text "GridLocation") (text "GridLocation_t") (text_value loc) [] parent))

  unfoldable pub new_grid_connectivity_type : Text → Option (Node V) → Built V
  unfolding create
  new_grid_connectivity_type type parent = assert_first (text_mem type allowed_gc) parent (
      create is_sids (text "GridConnectivityType") (text "GridConnectivityType_t") (text_value type)
        [] parent)

  unfoldable pub new_index_array : Text → Option V → Option (Node V) → Built V
  unfolding create checked
  new_index_array name value parent =
      checked parent index_array_parents (create is_sids name (text "IndexArray_t") value [] parent)

  -- `new_PointList`, which is deprecated: its warning is not kept.
  unfoldable pub new_point_list : Text → Option V → Option (Node V) → Built V
  unfolding new_index_array
  new_point_list name value parent = new_index_array name value parent

  -- An array of one dimension becomes one of pairs, if it can.
  abbrev pub or_same : V → Option V → V
  or_same v none = v
  or_same v (some w) = w

  unfoldable pub can_reshape : Option V → Bool
  can_reshape none = true
  can_reshape (some v) = if arr.ndim v == 1 then not (is_none (arr.reshape_pairs v)) else true

  unfoldable pub reshaped : Option V → Option V
  reshaped none = none
  reshaped (some v) = some (if arr.ndim v == 1 then or_same v (arr.reshape_pairs v) else v)

  unfoldable pub new_index_range : Text → Option V → Option (Node V) → Built V
  unfolding create checked reshaped can_reshape
  new_index_range name value parent =
      if can_reshape value
      then checked parent index_range_parents
          (create is_sids name (text "IndexRange_t") (reshaped value) [] parent)
      else (parent, raised value_error)

  unfoldable pub new_point_range : Text → Option V → Option (Node V) → Built V
  unfolding new_index_range
  new_point_range name value parent = new_index_range name value parent

  -- `astype dtype` is the cast to `cgns_to_dtype[dtype]`, if that is a key of the table.
  module _ (astype : Text → Option (V → V)) where
    abbrev cast_by : Option (V → V) → Option V → Result (Option V)
    cast_by none v = raised key_error
    cast_by (some cast) none = raised attribute_error
    cast_by (some cast) (some v) = ok (some (cast v))

    abbrev cast_to : Option Text → Option V → Result (Option V)
    cast_to none v = ok v
    cast_to (some dtype) v = cast_by (astype dtype) v

    abbrev pub with_value : Option (Node V) → Result (Option V) → (Option V → Built V) → Built V
    with_value parent (raised e) k = (parent, raised e)
    with_value parent (ok v) k = k v

    unfoldable pub new_data_array : Text → Option V → Option Text → Option (Node V) → Built V
    unfolding create checked
    new_data_array name value dtype parent = with_value parent (cast_to dtype value) λ v.
        checked parent data_array_parents (create is_sids name (text "DataArray_t") v [] parent)

    -- A field of a container, and an array that a preset adds.
    abbrev pub add_array : Text → V → Step V
    add_array name v = under (new_data_array name (some v) none)

    abbrev pub add_fields : List (Field V) → Step V
    add_fields = for_each (λ (f : Field V). add_array f.0 f.1)

    unfoldable pub new_grid_coordinates : Text → List (Field V) → Option (Node V) → Built V
    unfolding create checked grown for_each new_data_array
    new_grid_coordinates name fields parent =
        grown
          (checked parent (text "Zone_t" ∷ [])
            (create is_sids name (text "GridCoordinates_t") none [] parent))
          (add_fields fields)

    unfoldable pub new_flow_solution :
        Text → Option Text → List (Field V) → Option (Node V) → Built V
    unfolding create checked grown steps for_each new_data_array new_grid_location
    new_flow_solution name loc fields parent =
        grown
          (checked parent (text "Zone_t" ∷ [])
            (create is_sids name (text "FlowSolution_t") none [] parent))
          (steps (if_given loc (λ t. under (new_grid_location t)) ∷ add_fields fields ∷ []))

    -- The number of steps that the arrays leave in `n_steps`.
    abbrev n_steps : Option V → Option V → ℕ
    n_steps none none = 0
    n_steps (some t) none = arr.array_size t
    n_steps times (some i) = arr.array_size i

    -- The label of the parent is tested last.
    unfoldable pub new_base_iterative_data : Text → Option V → Option V → Option (Node V) → Built V
    unfolding create checked grown steps new_data_array set_value
    new_base_iterative_data name time_values iter_values parent =
        checked parent (text "CGNSBase_t" ∷ []) (
          grown (create is_sids name (text "BaseIterativeData_t") none [] parent) (
            steps (
              if_given time_values (add_array (text "TimeValues"))
              ∷ if_given iter_values (add_array (text "IterationValues"))
              ∷ set_value (some (arr.from_items (n_steps time_values iter_values ∷ [])))
              ∷ [])))
