-- ===== src/Sids/Elements.antt =====
-- `maia/pytree/sids/elements_utils.py`: the kinds of mesh elements. Their numbers are not negative.
use maia.Base.{ℕ, suc, List, [], ◌∷◌, Option, none, some, if◌then◌else◌, map, get_elem?}
use maia.Base.{Text, text, text_eq}
use maia.Base.Result.{Result, ok, raised, value_error, assertion_error, ◌>>=◌}

pub record Element : Type 0 where
  pub name : Text
  pub dim : Option ℕ
  pub n_vtx : Option ℕ
  pub n_edge : Option ℕ
  pub n_face : Option ℕ
  pub ref_elt : Option Text

-- A line of the table with all its columns.
abbrev full : Text → ℕ → ℕ → ℕ → ℕ → Text → Element
full name dim n_vtx n_edge n_face ref_elt = record {
  name = name;
  dim = some dim;
  n_vtx = some n_vtx;
  n_edge = some n_edge;
  n_face = some n_face;
  ref_elt = some ref_elt;
}

-- A line with a name, and at most a dimension.
abbrev bare : Text → Option ℕ → Element
bare name dim = record {
  name = name;
  dim = dim;
  n_vtx = none;
  n_edge = none;
  n_face = none;
  ref_elt = none;
}

unfoldable pub elements_properties : List Element
elements_properties =
    bare (text "Null") none
    ∷ bare (text "UserDefined") none
    ∷ full (text "NODE") 0 1 1 0 (text "NODE")
    ∷ full (text "BAR_2") 1 2 1 0 (text "BAR")
    ∷ full (text "BAR_3") 1 3 1 0 (text "BAR")
    ∷ full (text "TRI_3") 2 3 3 1 (text "TRI")
    ∷ full (text "TRI_6") 2 6 3 1 (text "TRI")
    ∷ full (text "QUAD_4") 2 4 4 1 (text "QUAD")
    ∷ full (text "QUAD_8") 2 8 4 1 (text "QUAD")
    ∷ full (text "QUAD_9") 2 9 4 1 (text "QUAD")
    ∷ full (text "TETRA_4") 3 4 6 4 (text "TETRA")
    ∷ full (text "TETRA_10") 3 10 6 4 (text "TETRA")
    ∷ full (text "PYRA_5") 3 5 8 5 (text "PYRA")
    ∷ full (text "PYRA_14") 3 14 8 5 (text "PYRA")
    ∷ full (text "PENTA_6") 3 6 9 5 (text "PENTA")
    ∷ full (text "PENTA_15") 3 15 9 5 (text "PENTA")
    ∷ full (text "PENTA_18") 3 18 9 5 (text "PENTA")
    ∷ full (text "HEXA_8") 3 8 12 6 (text "HEXA")
    ∷ full (text "HEXA_20") 3 20 12 6 (text "HEXA")
    ∷ full (text "HEXA_27") 3 27 12 6 (text "HEXA")
    ∷ bare (text "MIXED") none
    ∷ full (text "PYRA_13") 3 13 8 5 (text "PYRA")
    ∷ bare (text "NGON_n") (some 2)
    ∷ bare (text "NFACE_n") (some 3)
    ∷ full (text "BAR_4") 1 4 1 0 (text "BAR")
    ∷ full (text "TRI_9") 2 9 3 1 (text "TRI")
    ∷ full (text "TRI_10") 2 10 3 1 (text "TRI")
    ∷ full (text "QUAD_12") 2 12 4 1 (text "QUAD")
    ∷ full (text "QUAD_16") 2 16 4 1 (text "QUAD")
    ∷ full (text "TETRA_16") 3 16 6 4 (text "TETRA")
    ∷ full (text "TETRA_20") 3 20 6 4 (text "TETRA")
    ∷ full (text "PYRA_21") 3 21 8 5 (text "PYRA")
    ∷ full (text "PYRA_29") 3 29 8 5 (text "PYRA")
    ∷ full (text "PYRA_30") 3 30 8 5 (text "PYRA")
    ∷ full (text "PENTA_24") 3 24 9 5 (text "PENTA")
    ∷ full (text "PENTA_38") 3 38 9 5 (text "PENTA")
    ∷ full (text "PENTA_40") 3 40 9 5 (text "PENTA")
    ∷ full (text "HEXA_32") 3 32 12 6 (text "HEXA")
    ∷ full (text "HEXA_56") 3 56 12 6 (text "HEXA")
    ∷ full (text "HEXA_64") 3 64 12 6 (text "HEXA")
    ∷ full (text "BAR_5") 1 5 1 0 (text "BAR")
    ∷ full (text "TRI_12") 2 12 3 1 (text "TRI")
    ∷ full (text "TRI_15") 2 15 3 1 (text "TRI")
    ∷ full (text "QUAD_P4_16") 2 16 4 1 (text "QUAD")
    ∷ full (text "QUAD_25") 2 25 4 1 (text "QUAD")
    ∷ full (text "TETRA_22") 3 22 6 4 (text "TETRA")
    ∷ full (text "TETRA_34") 3 34 6 4 (text "TETRA")
    ∷ full (text "TETRA_35") 3 35 6 4 (text "TETRA")
    ∷ full (text "PYRA_P4_29") 3 29 8 5 (text "PYRA")
    ∷ full (text "PYRA_50") 3 50 8 5 (text "PYRA")
    ∷ full (text "PYRA_55") 3 55 8 5 (text "PYRA")
    ∷ full (text "PENTA_33") 3 33 9 5 (text "PENTA")
    ∷ full (text "PENTA_66") 3 66 9 5 (text "PENTA")
    ∷ full (text "PENTA_75") 3 75 9 5 (text "PENTA")
    ∷ full (text "HEXA_44") 3 44 12 6 (text "HEXA")
    ∷ full (text "HEXA_98") 3 98 12 6 (text "HEXA")
    ∷ full (text "HEXA_125") 3 125 12 6 (text "HEXA")
    ∷ []

unfoldable pub property_of : {A : Type 0} → (Element → A) → ℕ → Result A
property_of f n = elim (get_elem? elements_properties n) [
  | none ↦ raised assertion_error
  | some e ↦ ok (f e)
]

unfoldable pub element_name : ℕ → Result Text
unfolding property_of
element_name = property_of (λ e. e.name)

-- The place of a text in a list, as `list.index` finds it.
unfoldable pub index_of : Text → List Text → Result ℕ
index_of t [] = raised value_error
index_of t (s ∷ names) =
    let rest = index_of t names in if text_eq s t then ok 0 else (rest >>= λ i. ok (suc i))

unfoldable pub cgns_name_to_id : Text → Result ℕ
unfolding index_of
cgns_name_to_id name = index_of name (map (λ e. e.name) elements_properties)

unfoldable pub element_dim : ℕ → Result (Option ℕ)
unfolding property_of
element_dim = property_of (λ e. e.dim)

unfoldable pub element_number_of_nodes : ℕ → Result (Option ℕ)
unfolding property_of
element_number_of_nodes = property_of (λ e. e.n_vtx)
