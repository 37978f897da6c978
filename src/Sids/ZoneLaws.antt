-- ===== src/Sids/ZoneLaws.antt =====
-- The numbers of vertices, cells and faces of a structured zone agree with the numbering of them.
use Prim.Native.Nat.{zero}
use native.Mathlib.Nat.{le-mul_of_pos_right}
use maia.Base.{
  ℕ, suc, ◌+◌, ◌-◌, ◌*◌, ◌%◌, ◌<◌, ◌≤◌, ltb, ◌≡◌, refl, sym, ap, ◌∙◌, [], List, ◌∷◌, Option, none,
  some, true, false, if◌then◌else◌, Text, text, text_eq, lt→ltb, arith,
}
use maia.Base.Int.{pos}
use maia.Base.Result.{ok}
use maia.Numbering.Block.{Integers, Size, vertex, cell_center, k_face_center}
use maia.Numbering.Exact
use maia.Numbering.Exact.{cells, ijk_to_index, ijk_to_facek_index}
use maia.Numbering.Structured.{ijk_to_index_from_loc}
use maia.Numbering.StructuredLaws.{Fits, IsPositive, product_mono, to_exact}
use maia.Pytree.Node.{Node, node, Children}
use maia.Pytree.Walk.Predicate.{Libraries}
use maia.Sids.Arrays.{Arrays}
use maia.Sids.Zone.{
  per_direction, faces_per_direction, zone_type, vertex_size, cell_size, face_size, n_vtx, n_cell,
  n_face,
}

suc_less_one : (n : ℕ) → suc n - 1 ≡ n
suc_less_one n = omega arith

cells_numbered : (x y z : ℕ) → 0 < y → 0 < z → x + (y - 1) * x + (z - 1) * x * y ≡ x * (y * z)
cells_numbered x zero z p q = absurd (omega arith)
cells_numbered x (suc y) zero p q = absurd (omega arith)
cells_numbered x (suc y) (suc z) p q = rw (suc_less_one y, suc_less_one z) (grind arith)

-- Vertices of a block with these cells in each direction.
abbrev pub block_size : ℕ → ℕ → ℕ → Size
block_size x y z = record { x = suc x; y = suc y; z = suc z }

vertex_count :
    (x y z : ℕ)
    → suc x * (suc y * (suc z * 1)) ≡ ijk_to_index (suc x) (suc y) (suc z) (block_size x y z)
unfolding ijk_to_index
vertex_count x y z =
    let one : suc z * 1 ≡ suc z = omega arith in
    rw one (sym (cells_numbered (suc x) (suc y) (suc z) (omega arith) (omega arith)))

module _ (x y z : ℕ) where
  cell_count :
      0 < x → 0 < y → 0 < z → x * (y * (z * 1)) ≡ ijk_to_index x y z (cells (block_size x y z))
  unfolding ijk_to_index
  cell_count p q r =
      let one : z * 1 ≡ z = omega arith in
      rw (suc_less_one x, suc_less_one y, one) (sym (cells_numbered x y z q r))

  face_count :
      0 < y
      → ijk_to_facek_index x y (suc z) (cells (block_size x y z)) (block_size x y z)
        ≡ suc x * y * z + (suc y * z * x + suc z * x * y)
  unfolding ijk_to_facek_index
  face_count q =
      rw (suc_less_one x, suc_less_one y, cells_numbered x y (suc z) q (omega arith)) (grind arith)

module _ (ints : Integers) (x y z : ℕ) (fits : Fits ints (block_size x y z)) where
  abbrev big : IsPositive (block_size x y z)
  big = (omega arith, omega arith, omega arith)

  last_vertex :
      ijk_to_index_from_loc ints (suc x) (suc y) (suc z) vertex (block_size x y z)
      ≡ Exact.ijk_to_index_from_loc (suc x) (suc y) (suc z) vertex (block_size x y z)
  last_vertex =
      to_exact ints (block_size x y z) fits big vertex (suc x) (suc y) (suc z)
        ((omega arith, omega arith), (omega arith, omega arith), (omega arith, omega arith))

  last_cell :
      0 < x
      → 0 < y
      → 0 < z
      → ijk_to_index_from_loc ints x y z cell_center (block_size x y z)
        ≡ Exact.ijk_to_index_from_loc x y z cell_center (block_size x y z)
  last_cell p q r =
      to_exact ints (block_size x y z) fits big cell_center x y z
        ((omega arith, omega arith), (omega arith, omega arith), (omega arith, omega arith))

  last_face :
      0 < x
      → 0 < y
      → 0 < z
      → ijk_to_index_from_loc ints x y (suc z) k_face_center (block_size x y z)
        ≡ Exact.ijk_to_index_from_loc x y (suc z) k_face_center (block_size x y z)
  last_face p q r =
      to_exact ints (block_size x y z) fits big k_face_center x y (suc z)
        ((omega arith, omega arith), (omega arith, omega arith), (omega arith, omega arith))

  face_fits :
      (a b c : ℕ)
      → 0 < c
      → a * b * c ≤ suc x * suc y * suc z
      → ints.value (ints.times (ints.times a b) c) ≡ pos (a * b * c)
  face_fits a b c r h =
      let m : a * b ≤ a * b * c = le-mul_of_pos_right (a * b) r in
      rw (ints.times_fits a b (omega arith), ints.times_fits (a * b) c (omega arith))
        (ints.value_fits (a * b * c) (omega arith))

module _ {V : Type 0} (lib : Libraries V) (arr : Arrays V) where
  module _ (name : Text) (v : V) (cs : Children V) (x y z : ℕ) (bx by bz : List ℕ)
      (sizes : arr.rows v ≡ some ((suc x ∷ x ∷ bx) ∷ (suc y ∷ y ∷ by) ∷ (suc z ∷ z ∷ bz) ∷ []))
      (structured : zone_type lib arr (node name (some v) cs (text "Zone_t"))
        ≡ ok (some (text "Structured"))) where
    abbrev ints : Integers
    ints = arr.integers v

    abbrev zone : Node V
    zone = node name (some v) cs (text "Zone_t")

    vertices_of : vertex_size lib arr zone ≡ ok (per_direction (suc x ∷ suc y ∷ suc z ∷ []))
    unfolding vertex_size text_eq
    vertices_of = rw (sizes, structured) refl

    cells_of : cell_size lib arr zone ≡ ok (per_direction (x ∷ y ∷ z ∷ []))
    unfolding cell_size text_eq
    cells_of = rw (sizes, structured) refl

    faces_of :
        face_size lib arr zone
        ≡ ok (
            faces_per_direction (
              ints.value (ints.times (ints.times (suc x) y) z)
              ∷ ints.value (ints.times (ints.times (suc y) z) x)
              ∷ ints.value (ints.times (ints.times (suc z) x) y)
              ∷ []))
    unfolding face_size text_eq
    faces_of = rw (vertices_of, cells_of, structured) refl

    -- Where three times the number of vertices is an integer of the size array, the numbers of vertices,
    -- cells and faces of a structured zone with cells are the last indices that the numbering in these
    -- integers gives to a vertex, to a cell and to a face.
    pub structured_counts :
        0 < x
        → 0 < y
        → 0 < z
        → Fits ints (block_size x y z)
        → (n_vtx lib arr zone
            ≡ ijk_to_index_from_loc ints (suc x) (suc y) (suc z) vertex (block_size x y z))
          × (n_cell lib arr zone ≡ ijk_to_index_from_loc ints x y z cell_center (block_size x y z))
          × (k : ℕ) × (n_face lib arr zone ≡ ok (pos k))
          × (ijk_to_index_from_loc ints x y (suc z) k_face_center (block_size x y z) ≡ ok k)
    unfolding n_vtx n_cell n_face ijk_to_index_from_loc ijk_to_index ijk_to_facek_index
        Exact.ijk_to_index_from_loc
    structured_counts p q r fits = (
      rw vertices_of (
          unfold maia.Base.text_eq in
          ap ok (vertex_count x y z) ∙ sym (last_vertex ints x y z fits)),
      rw cells_of (
          unfold maia.Base.text_eq in
          ap ok (cell_count x y z p q r) ∙ sym (last_cell ints x y z fits p q r)),
      suc x * y * z + (suc y * z * x + suc z * x * y),
      rw
          (
            faces_of,
            face_fits ints x y z fits (suc x) y z r (
                product_mono (suc x) y z (suc x) (suc y) (suc z) (omega arith) (omega arith)
                  (omega arith)),
            face_fits ints x y z fits (suc y) z x p (
                omega (
                  arith,
                  product_mono (suc y) z x (suc y) (suc z) (suc x) (omega arith) (omega arith)
                      (omega arith),
                )),
            face_fits ints x y z fits (suc z) x y q (
                omega (
                  arith,
                  product_mono (suc z) x y (suc z) (suc x) (suc y) (omega arith) (omega arith)
                      (omega arith),
                )),
          )
          (unfold maia.Base.text_eq in ap (λ k. ok (pos k)) (omega arith)),
      last_face ints x y z fits p q r ∙ ap ok (face_count x y z q),
    )
