-- ===== src/Numbering/Tests.antt =====
-- Runs of the numbering, and the theorems on it at a small block.
use maia.Base.{◌+◌, ◌-◌, ◌≤◌, ◌<◌, ◌≡◌, refl, arith, List, [], ◌∷◌, range}
use maia.Base.Result.{ok}
use maia.Numbering.SlabCells.{cells}
use maia.Numbering.SlabEnds.{compute_slabs-cells}
use maia.Numbering.Int32.{int32}
use maia.Numbering.Block.{Size, j_face_center}
use maia.Numbering.Structured.{ijk_to_index_from_loc, index_to_ijk_from_loc}
use maia.Numbering.ExactLaws.{InBlock, volume, extent, first}
use maia.Numbering.StructuredLaws.{
  index_to_ijk_from_loc-ijk_to_index_from_loc, ijk_to_index_from_loc-index_to_ijk_from_loc,
}
use maia.Numbering.Slabs.{Slab, compute_slabs}

abbrev block : Size
block = record { x = 4; y = 3; z = 3 }

index_run : ijk_to_index_from_loc int32 2 3 1 j_face_center block ≡ ok 24
unfolding ijk_to_index_from_loc maia.Numbering.Structured.ijk_to_facej_index
index_run = refl

index_to_ijk_from_loc-ijk_to_index_from_loc_example :
    (first j_face_center block < 24)
    × (24 ≤ first j_face_center block + volume (extent j_face_center block))
    × (index_to_ijk_from_loc int32 24 j_face_center block ≡ ok (2, 3, 1))
index_to_ijk_from_loc-ijk_to_index_from_loc_example =
    index_to_ijk_from_loc-ijk_to_index_from_loc int32 j_face_center block 2 3 1 (omega arith)
      (omega arith) index_run

ijk_run : index_to_ijk_from_loc int32 24 j_face_center block ≡ ok (2, 3, 1)
unfolding index_to_ijk_from_loc maia.Numbering.Structured.facej_index_to_ijk
ijk_run = refl

ijk_to_index_from_loc-index_to_ijk_from_loc_example :
    InBlock (extent j_face_center block) 2 3 1
    × (ijk_to_index_from_loc int32 2 3 1 j_face_center block ≡ ok 24)
ijk_to_index_from_loc-index_to_ijk_from_loc_example =
    ijk_to_index_from_loc-index_to_ijk_from_loc int32 j_face_center block 24 2 3 1 (omega arith)
      (omega arith) ijk_run

-- The items 5 to 13 of a 4 x 3 x 2 block: the end of a line, the rest of the plane, and a part of
-- the next line.
slabs_run :
    compute_slabs (4 ∷ 3 ∷ 2 ∷ []) (5, 14)
    ≡ ok (
        record { i = (1, 4); j = (1, 2); k = (0, 1) }
        ∷ record { i = (0, 4); j = (2, 3); k = (0, 1) }
        ∷ record { i = (0, 2); j = (0, 1); k = (1, 2) }
        ∷ [])
unfolding compute_slabs
slabs_run = refl

-- In an array of 4 by 3 by 5, the cells from 6 up to 51: two ends of lines, a line, three planes.
compute_slabs-cells_example :
    (slabs : List Slab) × (compute_slabs (4 ∷ 3 ∷ 5 ∷ []) (6, 51) ≡ ok slabs)
    × (cells 4 3 slabs ≡ range 6 (51 - 6))
compute_slabs-cells_example =
    compute_slabs-cells 4 3 5 6 51 (omega arith) (omega arith) (omega arith) (omega arith)
