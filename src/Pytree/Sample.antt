-- ===== src/Pytree/Sample.antt =====
-- A small tree for the tests of the tree library.
use maia.Base.{ℕ, Bool, none, some, Text, text, text_eq}
use maia.Pytree.Node.{Node, node, nil, cons}
use maia.Pytree.Walk.Options.{Depth}

-- A base with two zones, one of which holds a zone's name again.
abbrev pub leaf : Text → Text → Node ℕ
leaf name label = node name none nil label

abbrev pub left : Node ℕ
left =
    node (text "ZoneA") none
      (cons (leaf (text "Grid") (text "GridCoordinates_t"))
        (cons (leaf (text "ZoneB") (text "Zone_t")) nil))
      (text "Zone_t")

abbrev pub tree : Node ℕ
tree =
    node (text "Base") (some 3) (cons left (cons (leaf (text "ZoneC") (text "Zone_t")) nil))
      (text "CGNSBase_t")

abbrev pub label_of : Node ℕ → Text
label_of (node n v cs l) = l

abbrev pub is_zone : Node ℕ → Bool
is_zone n = text_eq (label_of n) (text "Zone_t")

abbrev pub is_grid : Node ℕ → Bool
is_grid n = text_eq (label_of n) (text "GridCoordinates_t")

abbrev pub levels : Depth
levels = record { low = 1; high = some 2 }
