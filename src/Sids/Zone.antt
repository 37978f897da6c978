-- ===== src/Sids/Zone.antt =====
-- The class `Zone` of `maia/pytree/sids/node_inspect.py`: the kind and the sizes of a zone. The
-- products and sums of `np.prod` and `np.sum` are not bounded, as they are taken in 64 bits, but a
-- product of two entries is an integer of the size array.
use maia.Base.{
  ℕ, suc, ◌+◌, ◌*◌, ◌%◌, ◌==◌, leb, List, [], ◌∷◌, Bool, true, false, Option, if◌then◌else◌, length,
  head?, map, get_or, range, Text, text, text_eq,
}
use maia.Base.Int.{ℤ, pos, minus, ◌+ℤ◌}
use maia.Base.Result.{Result, ok, raised, type_error, ◌>>=◌}
use maia.Numbering.Block.{Integers}
use maia.Pytree.Node.{Node, Children, nil, cons, get_children}
use maia.Pytree.Walk.Predicate.{Libraries}
use maia.Sids.Arrays.{
  Arrays, raw_value, get_label, not_none, in_range, column, get_text, value_is_text, check_is_label,
  get_child_from_name, get_child_from_label,
}
use maia.Sids.Element
use maia.Utils.Lists.{expects_one}

abbrev label : Text
label = text "Zone_t"

-- An integer for an unstructured zone, else an array.
pub data Extent : Type 0 where
  total : ℕ → Extent
  per_direction : List ℕ → Extent

-- The faces of a structured zone in each direction, or the number of faces.
pub data FaceExtent : Type 0 where
  faces : ℤ → FaceExtent
  faces_per_direction : List ℤ → FaceExtent

abbrev product : List ℕ → ℕ
product [] = 1
product (n ∷ ns) = n * product ns

-- `np.prod`
abbrev pub prod : Extent → ℕ
prod (total n) = n
prod (per_direction ns) = product ns

abbrev sum_signed : List ℤ → ℤ
sum_signed [] = pos 0
sum_signed (n ∷ ns) = n +ℤ sum_signed ns

-- `np.sum`
abbrev pub sum_faces : FaceExtent → ℤ
sum_faces (faces n) = n
sum_faces (faces_per_direction ns) = sum_signed ns

-- `compute_nface_per_direction`, as the bits of an integer of the array.
unfoldable pub nface_per_direction : Integers → ℕ → List ℕ → List ℕ → ℕ → ℕ
nface_per_direction ints dim vtx_size cell_size d =
    let a = get_or vtx_size (d % dim) 0 in
    let b = if leb 2 dim then ints.times a (get_or cell_size ((d + 1) % dim) 0) else a in
    if dim == 3 then ints.times b (get_or cell_size ((d + 2) % dim) 0) else b

abbrev entries : Extent → List ℕ
entries (total n) = n ∷ []
entries (per_direction ns) = ns

-- A search with a predicate that may raise: all the nodes, or whether there is one.
unfoldable pub select_nodes :
    {V : Type 0} → (Node V → Result Bool) → Children V → Result (List (Node V))
select_nodes p nil = ok []
select_nodes p (cons c cs) =
    let rest = select_nodes p cs in
    p c >>= λ b. rest >>= λ found. ok (if b then c ∷ found else found)

unfoldable pub has_node : {V : Type 0} → (Node V → Result Bool) → Children V → Result Bool
has_node p nil = ok false
has_node p (cons c cs) = let rest = has_node p cs in p c >>= λ b. if b then ok true else rest

module _ {V : Type 0} (lib : Libraries V) (arr : Arrays V) where
  -- `Zone.Type`: the text, unless the value is something else.
  unfoldable pub zone_type : Node V → Result (Option Text)
  unfolding get_child_from_label get_text
  zone_type zone =
      check_is_label label zone
        (not_none (get_child_from_label lib zone (text "ZoneType_t")) >>= λ n. ok (get_text arr n))

  -- A column of the sizes, by the kind of the zone.
  abbrev sized : ℕ → Node V → Result Extent
  sized j zone = column arr (raw_value zone) j >>= λ sizes. zone_type zone >>= λ t.
      if value_is_text arr t (text "Unstructured")
      then (in_range (head? sizes) >>= λ n. ok (total n))
      else ok (per_direction sizes)

  unfoldable pub index_dimension : Node V → Result ℕ
  unfolding column
  index_dimension zone =
      check_is_label label zone (column arr (raw_value zone) 0 >>= λ sizes. ok (length sizes))

  unfoldable pub vertex_size : Node V → Result Extent
  unfolding column zone_type
  vertex_size zone = check_is_label label zone (sized 0 zone)

  unfoldable pub cell_size : Node V → Result Extent
  unfolding column zone_type
  cell_size zone = check_is_label label zone (sized 1 zone)

  unfoldable pub vertex_boundary_size : Node V → Result Extent
  unfolding column zone_type
  vertex_boundary_size zone = check_is_label label zone (sized 2 zone)

  -- `N.get_label(n) == "Elements_t" and Element.CGNSName(n) == name`
  abbrev pub is_element_of_kind : Text → Node V → Result Bool
  is_element_of_kind name n =
      if text_eq (get_label n) (text "Elements_t")
      then (Element.cgns_name lib arr n >>= λ t. ok (text_eq t name))
      else ok false

  unfoldable pub ngon_node : Node V → Result (Node V)
  unfolding select_nodes Element.cgns_name expects_one
  ngon_node zone =
      check_is_label label zone
        (select_nodes (is_element_of_kind (text "NGON_n")) (get_children zone) >>= expects_one)

  unfoldable pub nface_node : Node V → Result (Node V)
  unfolding select_nodes Element.cgns_name expects_one
  nface_node zone =
      check_is_label label zone
        (select_nodes (is_element_of_kind (text "NFACE_n")) (get_children zone) >>= expects_one)

  unfoldable pub has_ngon_elements : Node V → Result Bool
  unfolding has_node Element.cgns_name
  has_ngon_elements zone =
      check_is_label label zone (has_node (is_element_of_kind (text "NGON_n")) (get_children zone))

  unfoldable pub has_nface_elements : Node V → Result Bool
  unfolding has_node Element.cgns_name
  has_nface_elements zone =
      check_is_label label zone (has_node (is_element_of_kind (text "NFACE_n")) (get_children zone))

  -- The array of a child, `None` if that has no value.
  abbrev pub value_under : Node V → Text → Result (Option V)
  value_under n name = not_none (get_child_from_name lib n name) >>= λ c. ok (raw_value c)

  abbrev structured_faces : Integers → Extent → Extent → FaceExtent
  structured_faces ints vtx cell =
      let dim = length (entries vtx) in
      faces_per_direction (
        map (λ d. ints.value (nface_per_direction ints dim (entries vtx) (entries cell) d))
          (range 0 dim))

  abbrev ngon_faces : Node V → Result FaceExtent
  ngon_faces zone = do
    ngon ← ngon_node zone
    er ← value_under ngon (text "ElementRange")
    e ← Element.ends lib arr er
    ok (faces (minus (suc e.1) e.0))

  unfoldable pub face_size : Node V → Result FaceExtent
  unfolding vertex_size cell_size ngon_node nface_per_direction get_child_from_name Element.ends
  face_size zone = check_is_label label zone (
      vertex_size zone >>= λ vtx. cell_size zone >>= λ cell. zone_type zone >>= λ t.
      if value_is_text arr t (text "Structured")
      then (not_none (raw_value zone) >>= λ v. ok (structured_faces (arr.integers v) vtx cell))
      else if value_is_text arr t (text "Unstructured")
      then ngon_faces zone
      else raised type_error)

  unfoldable pub n_vtx : Node V → Result ℕ
  unfolding vertex_size
  n_vtx zone = check_is_label label zone (vertex_size zone >>= λ e. ok (prod e))

  unfoldable pub n_cell : Node V → Result ℕ
  unfolding cell_size
  n_cell zone = check_is_label label zone (cell_size zone >>= λ e. ok (prod e))

  unfoldable pub n_face : Node V → Result ℤ
  unfolding face_size
  n_face zone = check_is_label label zone (face_size zone >>= λ f. ok (sum_faces f))

  unfoldable pub n_vtx_bnd : Node V → Result ℕ
  unfolding vertex_boundary_size
  n_vtx_bnd zone = check_is_label label zone (vertex_boundary_size zone >>= λ e. ok (prod e))
