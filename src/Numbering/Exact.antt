-- ===== src/Numbering/Exact.antt =====
-- The numbering of a structured block on numbers without a bound, which the one in the integers of an
-- array is compared with.
use maia.Base.{ℕ, ◌+◌, ◌-◌, ◌*◌, ◌/◌}
use maia.Base.Result.{Result, ok, raised, value_error}
use maia.Numbering.Block.{
  Size, Ijk, Location, vertex, cell_center, i_face_center, j_face_center, k_face_center,
  unsupported,
}

-- `n_vtx - 1`
abbrev pub cells : Size → Size
cells n = record { x = n.x - 1; y = n.y - 1; z = n.z - 1 }

unfoldable pub ijk_to_index : ℕ → ℕ → ℕ → Size → ℕ
ijk_to_index i j k n = i + (j - 1) * n.x + (k - 1) * n.x * n.y

unfoldable pub index_to_ijk : ℕ → Size → Ijk
index_to_ijk idx n =
    let k = (idx - 1) / (n.x * n.y) + 1 in
    let j = (idx - (k - 1) * (n.x * n.y) - 1) / n.x + 1 in
    let i = idx - (j - 1) * n.x - (k - 1) * (n.x * n.y) in (i, j, k)

unfoldable pub ijk_to_facei_index : ℕ → ℕ → ℕ → Size → Size → ℕ
ijk_to_facei_index i j k c v = i + (j - 1) * v.x + (k - 1) * v.x * c.y

unfoldable pub facei_index_to_ijk : ℕ → Size → Size → Ijk
facei_index_to_ijk idx c v =
    let k = (idx - 1) / (v.x * c.y) + 1 in
    let j = (idx - (k - 1) * (v.x * c.y) - 1) / v.x + 1 in
    let i = idx - (j - 1) * v.x - (k - 1) * (v.x * c.y) in (i, j, k)

-- `nbFacesi` and `nbFacesj`
abbrev pub nb_faces_i : Size → Size → ℕ
nb_faces_i c v = v.x * c.y * c.z

abbrev pub nb_faces_j : Size → Size → ℕ
nb_faces_j c v = v.y * c.x * c.z

unfoldable pub ijk_to_facej_index : ℕ → ℕ → ℕ → Size → Size → ℕ
ijk_to_facej_index i j k c v = i + (j - 1) * c.x + (k - 1) * v.y * c.x + nb_faces_i c v

unfoldable pub facej_index_to_ijk : ℕ → Size → Size → Ijk
facej_index_to_ijk idx c v =
    let k = (idx - 1 - nb_faces_i c v) / (v.y * c.x) + 1 in
    let j = (idx - (k - 1) * (v.y * c.x) - 1 - nb_faces_i c v) / c.x + 1 in
    let i = idx - (j - 1) * c.x - (k - 1) * (v.y * c.x) - nb_faces_i c v in (i, j, k)

unfoldable pub ijk_to_facek_index : ℕ → ℕ → ℕ → Size → Size → ℕ
ijk_to_facek_index i j k c v =
    i + (j - 1) * c.x + (k - 1) * c.x * c.y + nb_faces_i c v + nb_faces_j c v

unfoldable pub facek_index_to_ijk : ℕ → Size → Size → Ijk
facek_index_to_ijk idx c v =
    let k = (idx - 1 - nb_faces_i c v - nb_faces_j c v) / (c.x * c.y) + 1 in
    let j = (idx - (k - 1) * (c.x * c.y) - 1 - nb_faces_i c v - nb_faces_j c v) / c.x + 1 in
    let i = idx - (j - 1) * c.x - (k - 1) * (c.x * c.y) - nb_faces_i c v - nb_faces_j c v in
    (i, j, k)

unfoldable pub ijk_to_index_from_loc : ℕ → ℕ → ℕ → Location → Size → Result ℕ
ijk_to_index_from_loc i j k vertex n = ok (ijk_to_index i j k n)
ijk_to_index_from_loc i j k cell_center n = ok (ijk_to_index i j k (cells n))
ijk_to_index_from_loc i j k i_face_center n = ok (ijk_to_facei_index i j k (cells n) n)
ijk_to_index_from_loc i j k j_face_center n = ok (ijk_to_facej_index i j k (cells n) n)
ijk_to_index_from_loc i j k k_face_center n = ok (ijk_to_facek_index i j k (cells n) n)
ijk_to_index_from_loc i j k unsupported n = raised value_error

unfoldable pub index_to_ijk_from_loc : ℕ → Location → Size → Result Ijk
index_to_ijk_from_loc idx vertex n = ok (index_to_ijk idx n)
index_to_ijk_from_loc idx cell_center n = ok (index_to_ijk idx (cells n))
index_to_ijk_from_loc idx i_face_center n = ok (facei_index_to_ijk idx (cells n) n)
index_to_ijk_from_loc idx j_face_center n = ok (facej_index_to_ijk idx (cells n) n)
index_to_ijk_from_loc idx k_face_center n = ok (facek_index_to_ijk idx (cells n) n)
index_to_ijk_from_loc idx unsupported n = raised value_error
