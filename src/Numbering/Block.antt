-- ===== src/Numbering/Block.antt =====
-- What the functions of `maia/utils/numbering/s_numbering_funcs.py` take, and the integers in which
-- they compute.
use maia.Base.{ℕ, ◌+◌, ◌-◌, ◌*◌, ◌/◌, ◌<◌, ◌≤◌, ◌≡◌}
use maia.Base.Int.{ℤ, pos}

-- The integers of a numpy array, as their bits. An operation whose result is at least 0 and under the
-- bound is exact; what it gives otherwise, where it wraps around, is left to the record.
pub record Integers : Type 0 where
  pub bound : ℕ
  pub plus : ℕ → ℕ → ℕ
  pub minus : ℕ → ℕ → ℕ
  pub times : ℕ → ℕ → ℕ
  pub over : ℕ → ℕ → ℕ
  pub value : ℕ → ℤ
  pub plus_fits : (a b : ℕ) → a + b < bound → plus a b ≡ a + b
  pub minus_fits : (a b : ℕ) → b ≤ a → a < bound → minus a b ≡ a - b
  pub times_fits : (a b : ℕ) → a * b < bound → times a b ≡ a * b
  pub over_fits : (a b : ℕ) → 0 < b → a < bound → b < bound → over a b ≡ a / b
  pub value_fits : (a : ℕ) → a < bound → value a ≡ pos a

-- The three entries of `n_vtx`, `n_cell` or `n_elmt`.
pub record Size : Type 0 where
  pub x : ℕ
  pub y : ℕ
  pub z : ℕ

-- The three indices `i, j, k`.
abbrev pub Ijk : Type 0
Ijk = ℕ × ℕ × ℕ

-- The texts that `loc` may be, and any other.
pub data Location : Type 0 where
  vertex cell_center i_face_center j_face_center k_face_center unsupported : Location
