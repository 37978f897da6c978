-- ===== src/Sids/Sample.antt =====
-- Arrays as lists, and small nodes, for the tests of the inspection of nodes and of the presets.
use mathlib.Core.Option
use maia.Base.{
  ◌%◌, ◌==◌, if◌then◌else◌, ℕ, suc, List, [], ◌∷◌, Bool, true, false, Option, none, some, length,
  map, concat, Text, text, text_eq,
}
use maia.Base.Int.{pos}
use maia.Numbering.Int32.{int32}
use maia.Pytree.Node.{Node, node, Children, nil, cons}
use maia.Pytree.Walk.Predicate.{Libraries}
use maia.Sids.Arrays.{Arrays}

pub data Array : Type 0 where
  chars : Text → Array
  vector : List ℕ → Array
  matrix : List (List ℕ) → Array

abbrev chars_of : Array → Option Text
chars_of (chars t) = some t
chars_of (vector ns) = none
chars_of (matrix rows) = none

abbrev vector_of : Array → Option (List ℕ)
vector_of (chars t) = none
vector_of (vector ns) = some ns
vector_of (matrix rows) = none

abbrev matrix_rows : Array → Option (List (List ℕ))
matrix_rows (chars t) = none
matrix_rows (vector ns) = none
matrix_rows (matrix rows) = some rows

abbrev pairs : List ℕ → List (List ℕ)
pairs [] = []
pairs (a ∷ []) = []
pairs (a ∷ b ∷ ns) = (a ∷ b ∷ []) ∷ pairs ns

abbrev in_pairs : Array → Option Array
in_pairs (chars t) = none
in_pairs (vector ns) = if length ns % 2 == 0 then some (matrix (pairs ns)) else none
in_pairs (matrix rows) = some (matrix rows)

abbrev dimensions : Array → ℕ
dimensions (chars t) = 1
dimensions (vector ns) = 1
dimensions (matrix rows) = 2

abbrev length_of : Array → ℕ
length_of (chars t) = length t
length_of (vector ns) = length ns
length_of (matrix rows) = length (concat rows)

abbrev columns : Array → Option ℕ
columns (chars t) = none
columns (vector ns) = none
columns (matrix []) = none
columns (matrix (row ∷ rows)) = some (length row)

abbrev pub arrays : Arrays Array
arrays = record {
  text_of = chars_of;
  items = vector_of;
  rows = matrix_rows;
  integers = λ v. int32;
  from_text = chars;
  from_items = vector;
  ndim = dimensions;
  reshape_pairs = in_pairs;
  array_size = length_of;
  width = columns;
  signed_items = λ v. Option.map (map pos) (vector_of v);
}

abbrev is_text : Option Text → Text → Bool
is_text none t = false
is_text (some s) t = text_eq s t

-- Names are matched as they are.
abbrev pub libraries : Libraries Array
libraries = record {
  fnmatch = text_eq;
  array_equal = λ a b. false;
  f_contiguous = λ v. true;
  asfortranarray = λ v. v;
  value_is = λ v t. is_text (Option.bind v chars_of) t;
  is_sids = λ label. true;
}

abbrev pub list_children : List (Node Array) → Children Array
list_children [] = nil
list_children (n ∷ ns) = cons n (list_children ns)

abbrev join_to : Text → Node Array
join_to donor = node (text "match") (some (chars donor)) nil (text "GridConnectivity1to1_t")

abbrev zone_with : Text → List (Node Array) → Node Array
zone_with name joins =
    node name none
      (cons (node (text "ZGC") none (list_children joins) (text "ZoneGridConnectivity_t")) nil)
      (text "Zone_t")

-- Three zones, the first and the third of which are joined.
abbrev pub joined_zones : Node Array
joined_zones =
    node (text "CGNSTree") none
      (cons
        (node (text "Base") none
          (list_children (
            zone_with (text "Zone1") (join_to (text "Zone3") ∷ [])
            ∷ zone_with (text "Zone2") []
            ∷ zone_with (text "Zone3") (join_to (text "Zone1") ∷ [])
            ∷ []))
          (text "CGNSBase_t"))
        nil)
      (text "CGNSTree_t")

abbrev pub hexa_section : Node Array
hexa_section =
    node (text "Hexa") (some (vector (17 ∷ 0 ∷ [])))
      (cons (node (text "ElementRange") (some (vector (21 ∷ 40 ∷ []))) nil (text "IndexRange_t"))
        nil)
      (text "Elements_t")

abbrev pub block : Node Array
block =
    node (text "Block") (some (matrix ((11 ∷ 10 ∷ 0 ∷ []) ∷ (6 ∷ 5 ∷ 0 ∷ []) ∷ [])))
      (cons (node (text "ZoneType") (some (chars (text "Structured"))) nil (text "ZoneType_t")) nil)
      (text "Zone_t")

-- A structured block with these cells in each direction.
abbrev pub sizes_of : ℕ → ℕ → ℕ → Array
sizes_of x y z = matrix ((suc x ∷ x ∷ 0 ∷ []) ∷ (suc y ∷ y ∷ 0 ∷ []) ∷ (suc z ∷ z ∷ 0 ∷ []) ∷ [])

abbrev pub structured_type : Children Array
structured_type =
    cons (node (text "ZoneType") (some (chars (text "Structured"))) nil (text "ZoneType_t")) nil
