-- ===== src/Sids/Subset.antt =====
-- The classes `Subset`, `PointRange` and `PointList` of `maia/pytree/sids/node_inspect.py`.
use maia.Base.{
  ℕ, suc, ◌+◌, ◌-◌, ◌*◌, ◌==◌, List, [], ◌∷◌, Bool, ◌&&◌, Option, none, some, if◌then◌else◌, Text,
  text, text_eq, text_mem,
}
use maia.Base.Result.{
  Result, ok, raised, value_error, runtime_error, attribute_error, assertion_error, ◌>>=◌,
}
use maia.Pytree.Node.{Node, get_name}
use maia.Pytree.Paths.{predicates_to_paths}
use maia.Pytree.Walk.Predicate.{Libraries, by_text, auto_predicate}
use maia.Sids.Arrays.{
  Arrays, raw_value, get_label, in_range, column, get_text, value_is_text, check_is_label,
  check_in_labels, get_child_from_name, get_child_from_label,
}
use maia.Utils.Lists.{expects_one}

abbrev labels : List Text
labels =
    text "FlowSolution_t"
    ∷ text "DiscreteData_t"
    ∷ text "ZoneSubRegion_t"
    ∷ text "BC_t"
    ∷ text "BCDataSet_t"
    ∷ text "GridConnectivity_t"
    ∷ text "GridConnectivity1to1_t"
    ∷ []

-- `np.abs(ends - starts) + 1`
unfoldable pub sizes_between : List ℕ → List ℕ → List ℕ
sizes_between [] ends = []
sizes_between (s ∷ starts) [] = []
sizes_between (s ∷ starts) (e ∷ ends) = ((e - s) + (s - e) + 1) ∷ sizes_between starts ends

abbrev pub product : List ℕ → ℕ
product [] = 1
product (n ∷ ns) = n * product ns

-- The axes where the range has one layer, `np.nonzero(cst_axis)[0]`, counted from `i`.
unfoldable pub constant_axes : ℕ → List ℕ → List ℕ → List ℕ
constant_axes i [] ends = []
constant_axes i (s ∷ starts) [] = []
constant_axes i (s ∷ starts) (e ∷ ends) =
    let rest = constant_axes (suc i) starts ends in if s == e then i ∷ rest else rest

abbrev the_axis : List ℕ → Result ℕ
the_axis [] = raised value_error
the_axis (a ∷ []) = ok a
the_axis (a ∷ b ∷ axes) = raised value_error

-- `except RuntimeError: raise ValueError`
abbrev as_value_error : {A : Type 0} → Result A → Result A
as_value_error (ok a) = ok a
as_value_error (raised runtime_error) = raised value_error
as_value_error (raised e) = raised e

module _ {V : Type 0} (lib : Libraries V) (arr : Arrays V) where
  -- `PointRange.SizePerIndex`
  unfoldable pub size_per_index : Node V → Result (List ℕ)
  unfolding column sizes_between
  size_per_index pr = check_is_label (text "IndexRange_t") pr (
      column arr (raw_value pr) 1 >>= λ ends.
      column arr (raw_value pr) 0 >>= λ starts. ok (sizes_between starts ends))

  -- `PointRange.n_elem`
  unfoldable pub range_n_elem : Node V → Result ℕ
  unfolding size_per_index
  range_n_elem pr =
      check_is_label (text "IndexRange_t") pr (size_per_index pr >>= λ sizes. ok (product sizes))

  abbrev second_dimension : Option V → Result ℕ
  second_dimension none = raised attribute_error
  second_dimension (some v) = elim (arr.text_of v) [
    | some t ↦ raised attribute_error
    | none ↦ in_range (arr.width v)
  ]

  -- `PointList.n_elem`
  unfoldable pub list_n_elem : Node V → Result ℕ
  list_n_elem pl = check_is_label (text "IndexArray_t") pl (second_dimension (raw_value pl))

  -- `assert (pl is None) ^ (pr is None)`, and the one that is there.
  abbrev pub one_of : Option (Node V) → Option (Node V) → Result (Node V)
  one_of (some pl) none = ok pl
  one_of none (some pr) = ok pr
  one_of none none = raised assertion_error
  one_of (some pl) (some pr) = raised assertion_error

  -- `getPatch`
  unfoldable pub get_patch : Node V → Result (Node V)
  unfolding get_child_from_name
  get_patch subset = check_in_labels labels subset (
      one_of (get_child_from_name lib subset (text "PointList"))
        (get_child_from_name lib subset (text "PointRange")))

  unfoldable pub n_elem : Node V → Result ℕ
  unfolding get_patch range_n_elem list_n_elem
  n_elem subset = check_in_labels labels subset (
      get_patch subset >>= λ patch.
      if text_eq (get_label patch) (text "IndexArray_t")
      then list_n_elem patch
      else range_n_elem patch)

  abbrev pub text_or_vertex : Option (Node V) → Option Text
  text_or_vertex none = some (text "Vertex")
  text_or_vertex (some n) = get_text arr n

  -- `GridLocation`
  unfoldable pub grid_location : Node V → Result (Option Text)
  unfolding get_child_from_label get_text
  grid_location subset =
      check_in_labels labels subset
        (ok (text_or_vertex (get_child_from_label lib subset (text "GridLocation_t"))))

  abbrev axis_of_range : Option (Node V) → Result ℕ
  axis_of_range none = raised value_error
  axis_of_range (some pr) = column arr (raw_value pr) 0 >>= λ starts.
      column arr (raw_value pr) 1 >>= λ ends. the_axis (constant_axes 0 starts ends)

  unfoldable pub normal_axis : Node V → Result ℕ
  unfolding grid_location get_child_from_name column constant_axes
  normal_axis subset = check_in_labels labels subset (
      grid_location subset >>= λ loc.
      if value_is_text arr loc (text "IFaceCenter")
      then ok 0
      else if value_is_text arr loc (text "JFaceCenter")
      then ok 1
      else if value_is_text arr loc (text "KFaceCenter")
      then ok 2
      else axis_of_range (get_child_from_name lib subset (text "PointRange")))

  -- `is_bc`, and `is_gc`
  abbrev is_region : List Text → Node V → Node V → Bool
  is_region of_labels region n =
      text_mem (get_label n) of_labels && value_is_text arr (get_text arr region) (get_name n)

  -- The paths of the nodes with the name of the region, under the children of a label.
  abbrev paths_under : Text → (Node V → Bool) → Node V → Result (Option (List Text))
  paths_under label test zone =
      auto_predicate lib (by_text label) >>= λ p. predicates_to_paths zone (p ∷ test ∷ [])

  abbrev the_path : Option (List Text) → Result (Option Text)
  the_path none = ok none
  the_path (some paths) = as_value_error (expects_one paths >>= λ p. ok (some p))

  abbrev extent_of : Option (Node V) → Option (Node V) → Node V → Node V → Result (Option Text)
  extent_of (some bc) gc zsr zone =
      paths_under (text "ZoneBC_t") (is_region (text "BC_t" ∷ []) bc) zone >>= the_path
  extent_of none (some gc) zsr zone =
      paths_under (text "ZoneGridConnectivity_t")
        (is_region (text "GridConnectivity1to1_t" ∷ text "GridConnectivity_t" ∷ []) gc) zone
      >>= the_path
  extent_of none none zsr zone = ok (some (get_name zsr))

  -- `ZSRExtent`
  unfoldable pub zsr_extent : Node V → Node V → Result (Option Text)
  unfolding get_child_from_name get_text auto_predicate predicates_to_paths expects_one
  zsr_extent zsr zone = check_in_labels labels zsr (
      extent_of (get_child_from_name lib zsr (text "BCRegionName"))
        (get_child_from_name lib zsr (text "GridConnectivityRegionName")) zsr zone)
