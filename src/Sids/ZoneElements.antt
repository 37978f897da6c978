-- ===== src/Sids/ZoneElements.antt =====
-- The class `Zone` of `maia/pytree/sids/node_inspect.py`: the coordinates and the elements of a zone.
use maia.Base.{
  ℕ, ltb, max, List, [], ◌∷◌, Bool, true, false, Option, none, some, if◌then◌else◌, map, Text, text,
  text_eq,
}
use maia.Base.Int.{ℤ, pos, negsuc}
use maia.Base.Result.{Result, ok, raised, runtime_error, value_error, ◌>>=◌, ◌>>◌}
use maia.Graph.Zip.{sorted}
use maia.Pytree.Node.{Node}
use maia.Pytree.Walk.Predicate.{Libraries, match_name_label}
use maia.Sids.Arrays.{
  Arrays, raw_value, not_none, each, entry, value_is_text, check_is_label, get_child,
  get_child_from_name, get_child_from_label, get_children_from_label,
}
use maia.Sids.Element
use maia.Sids.Zone
use maia.Utils.Lists.{bucket_split, are_overlapping}

abbrev label : Text
label = text "Zone_t"

-- The arrays of the three directions.
abbrev pub Coordinates : Type 0 → Type 0
Coordinates V = Option V × Option V × Option V

abbrev Range : Type 0
Range = ℕ × ℕ

-- `for first, second in itertools.combinations(range_by_dim, 2)`
unfoldable pub check_against : Range → List Range → Result (Unit {0})
unfolding are_overlapping
check_against first [] = ok tt
check_against first (second ∷ ranges) = are_overlapping first second true >>= λ b.
    if b then raised runtime_error else check_against first ranges

unfoldable pub check_interlaced : List Range → Result (Unit {0})
unfolding check_against
check_interlaced [] = ok tt
check_interlaced (first ∷ ranges) = check_against first ranges >> check_interlaced ranges

-- `sect_start`
abbrev starts : List Range → List ℕ
starts [] = []
starts (r ∷ ranges) = if ltb 0 r.0 then r.0 ∷ starts ranges else starts ranges

abbrev last_or : ℕ → List ℕ → ℕ
last_or d [] = d
last_or d (n ∷ ns) = last_or n ns

abbrev status : List ℕ → ℤ
status [] = pos 0
status (a ∷ []) = pos 0
status (a ∷ b ∷ ns) =
    let z = last_or b ns in if ltb a z then pos 1 else if ltb z a then negsuc 0 else pos 0

abbrev maximum : ℕ → List ℕ → ℕ
maximum n [] = n
maximum n (m ∷ ms) = max n (maximum m ms)

module _ {V : Type 0} (lib : Libraries V) (arr : Arrays V) where
  abbrev grid_coordinates : Node V → Option Text → Option (Node V)
  grid_coordinates zone none = get_child_from_label lib zone (text "GridCoordinates_t")
  grid_coordinates zone (some name) =
      get_child (match_name_label lib name (text "GridCoordinates_t")) zone

  abbrev value_if_any : Option (Node V) → Option V
  value_if_any none = none
  value_if_any (some n) = raw_value n

  abbrev coordinates_of : Option (Node V) → Result (Coordinates V)
  coordinates_of none = raised runtime_error
  coordinates_of (some n) =
      let x = value_if_any (get_child_from_name lib n (text "CoordinateX")) in
      let y = value_if_any (get_child_from_name lib n (text "CoordinateY")) in
      let z = value_if_any (get_child_from_name lib n (text "CoordinateZ")) in ok (x, y, z)

  unfoldable pub coordinates : Node V → Option Text → Result (Coordinates V)
  unfolding get_child_from_label get_child match_name_label get_child_from_name
  coordinates zone name = check_is_label label zone (coordinates_of (grid_coordinates zone name))

  unfoldable pub ngon_connectivity : Node V → Result (Option V × Option V × Option V)
  unfolding Zone.ngon_node
  ngon_connectivity zone = check_is_label label zone (
      Zone.ngon_node lib arr zone >>= λ ngon.
      Zone.value_under lib arr ngon (text "ElementStartOffset") >>= λ face_vtx_idx.
      Zone.value_under lib arr ngon (text "ElementConnectivity") >>= λ face_vtx.
      Zone.value_under lib arr ngon (text "ParentElements") >>= λ ngon_pe.
      ok (face_vtx_idx, face_vtx, ngon_pe))

  -- An element with its key, `Element.Range(item)[0]`.
  abbrev keyed : Node V → Result (ℕ × Node V)
  keyed item = Element.range lib arr item >>= λ er. entry arr er 0 >>= λ k. ok (k, item)

  unfoldable pub by_key : ℕ × Node V → ℕ × Node V → Bool
  by_key a b = ltb a.0 b.0

  unfoldable pub get_ordered_elements : Node V → Result (List (Node V))
  unfolding Element.range entry each sorted by_key get_children_from_label
  get_ordered_elements zone = check_is_label label zone (
      each keyed (get_children_from_label lib zone (text "Elements_t")) >>= λ items.
      ok (map (λ i. i.1) (sorted by_key items)))

  -- The sublist that an element goes to; there is none for an element without a dimension.
  abbrev with_dimension : Node V → Result (ℕ × Node V)
  with_dimension e = Element.dimension lib arr e >>= not_none >>= λ d. ok (d, e)

  unfoldable pub get_ordered_elements_per_dim : Node V → Result (List (List (Node V)))
  unfolding get_ordered_elements Element.dimension bucket_split
  get_ordered_elements_per_dim zone = check_is_label label zone (
      get_ordered_elements zone >>= λ elements. each with_dimension elements >>= λ pairs.
      bucket_split pairs (λ i. i.0) false (some 4) >>= λ buckets. ok (map (map (λ i. i.1)) buckets))

  abbrev last_node : Node V → List (Node V) → Node V
  last_node n [] = n
  last_node n (m ∷ ns) = last_node m ns

  unfoldable pub range_of : List (Node V) → Result (ℕ × ℕ)
  unfolding Element.range entry
  range_of [] = ok (0, 0)
  range_of (first ∷ more) = do
    er ← Element.range lib arr first
    low ← entry arr er 0
    er' ← Element.range lib arr (last_node first more)
    high ← entry arr er' 1
    ok (low, high)

  unfoldable pub get_elt_range_per_dim : Node V → Result (List (ℕ × ℕ))
  unfolding get_ordered_elements_per_dim range_of check_interlaced
  get_elt_range_per_dim zone = check_is_label label zone (
      get_ordered_elements_per_dim zone >>= λ by_dim.
      each range_of by_dim >>= λ ranges. check_interlaced ranges >> ok ranges)

  unfoldable pub elt_ordering_by_dim : Node V → Result ℤ
  unfolding get_elt_range_per_dim
  elt_ordering_by_dim zone =
      check_is_label label zone
        (get_elt_range_per_dim zone >>= λ ranges. ok (status (starts ranges)))

  -- `[Element.Dimension(n) for n in … if Element.CGNSName(n) != 'MIXED']`
  unfoldable pub dimensions : List (Node V) → Result (List (Option ℕ))
  unfolding Element.cgns_name Element.dimension
  dimensions [] = ok []
  dimensions (n ∷ ns) =
      let rest = dimensions ns in
      Element.cgns_name lib arr n >>= λ name.
      if text_eq name (text "MIXED")
      then rest
      else (Element.dimension lib arr n >>= λ d. rest >>= λ ds. ok (d ∷ ds))

  -- `max(elt_dim)`. The elements without a dimension are compared with `None` if there is another.
  abbrev max_dimension : List (Option ℕ) → Result (Option ℕ)
  max_dimension [] = raised value_error
  max_dimension (d ∷ []) = ok d
  max_dimension (d ∷ e ∷ ds) =
      not_none d >>= λ n. each not_none (e ∷ ds) >>= λ ns. ok (some (maximum n ns))

  abbrev ngon_dimension : Node V → ℕ
  ngon_dimension ngon = elim (get_child_from_name lib ngon (text "ParentElements")) [
    | none ↦ 2
    | some n ↦ 3
  ]

  unfoldable pub cell_dimension : Node V → Result (Option ℕ)
  unfolding Zone.zone_type Zone.index_dimension Zone.has_nface_elements Zone.has_ngon_elements
      Zone.ngon_node dimensions each get_children_from_label
  cell_dimension zone = check_is_label label zone (
      Zone.zone_type lib arr zone >>= λ t.
      if value_is_text arr t (text "Structured")
      then (Zone.index_dimension lib arr zone >>= λ d. ok (some d))
      else (Zone.has_nface_elements lib arr zone >>= λ nface.
          if nface
          then ok (some 3)
          else (Zone.has_ngon_elements lib arr zone >>= λ ngon.
              if ngon
              then (Zone.ngon_node lib arr zone >>= λ n. ok (some (ngon_dimension n)))
              else (dimensions (get_children_from_label lib zone (text "Elements_t"))
                  >>= max_dimension))))
