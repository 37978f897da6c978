-- ===== src/Numbering/Flat.antt =====
-- Positions in a box that is numbered line by line and plane by plane.
use native.Mathlib.Nat.{add-mul-div_right, div-eq_of_lt, div-add-mod', mod-lt, div-lt_iff_lt-mul}
use maia.Base.{ℕ, zero, suc, ◌+◌, ◌-◌, ◌*◌, ◌/◌, ◌≤◌, ◌<◌, ◌≡◌, ◌∙◌, arith}

-- The quotient is read off a number that is written as remainder and multiple.
pub div_of_parts : (x a c d : ℕ) → a < d → x ≡ a + c * d → x / d ≡ c
div_of_parts x a c d h e =
    rw e (add-mul-div_right a c {z = d} (omega arith) ∙ rw (div-eq_of_lt h) (omega arith))

-- The position `a` in line `b` lies in the plane.
pub line_in_plane : (a b line rows : ℕ) → a < line → b < rows → a + b * line < line * rows
line_in_plane a b line rows h k = grind arith

pub div_bounds : (x d : ℕ) → 0 < d → (x / d * d ≤ x) × (x < x / d * d + d)
div_bounds x d h = omega (arith, div-add-mod' x d, mod-lt x h)

pub quotient_lt : (x d m : ℕ) → 0 < d → x < d * m → x / d < m
quotient_lt x d m h l = (div-lt_iff_lt-mul h).1 (omega arith)

pub pos_of_mul : (a b : ℕ) → 0 < a * b → (0 < a) × (0 < b)
pos_of_mul zero b h = absurd (omega arith)
pos_of_mul (suc a) zero h = absurd (omega arith)
pos_of_mul (suc a) (suc b) h = omega arith

-- Indices that count from 1, numbered from `first + 1`.
module _ (line rows plane first : ℕ) (planes : plane ≡ line * rows) where
  pub unpack :
      (i j k idx : ℕ)
      → (1 ≤ i) × (i ≤ line)
      → (1 ≤ j) × (j ≤ rows)
      → 1 ≤ k
      → idx ≡ i + (j - 1) * line + (k - 1) * plane + first
      → ((idx - 1 - first) / plane + 1 ≡ k)
        × ((idx - (k - 1) * plane - 1 - first) / line + 1 ≡ j)
        × (idx - (j - 1) * line - (k - 1) * plane - first ≡ i)
  unpack i j k idx h r l e =
      let low : (i - 1) + (j - 1) * line < plane =
        omega (arith, line_in_plane (i - 1) (j - 1) line rows (omega arith) (omega arith)) in
      let plane_index =
        div_of_parts (idx - 1 - first) ((i - 1) + (j - 1) * line) (k - 1) plane low (omega arith) in
      let line_index =
        div_of_parts (idx - (k - 1) * plane - 1 - first) (i - 1) (j - 1) line (omega arith)
          (omega arith) in
      (omega arith, omega arith, omega arith)

  -- The index lies among those of the box.
  pub unpack_bounds :
      (i j k idx depth : ℕ)
      → (1 ≤ i) × (i ≤ line)
      → (1 ≤ j) × (j ≤ rows)
      → (1 ≤ k) × (k ≤ depth)
      → idx ≡ i + (j - 1) * line + (k - 1) * plane + first
      → (first < idx) × (idx ≤ first + plane * depth)
  unpack_bounds i j k idx depth h r l e =
      let low : (i - 1) + (j - 1) * line < plane =
        omega (arith, line_in_plane (i - 1) (j - 1) line rows (omega arith) (omega arith)) in
      let all = line_in_plane ((i - 1) + (j - 1) * line) (k - 1) plane depth low (omega arith) in
      (omega arith, omega arith)

  -- Every index of the box is that of one position in it.
  pub repack :
      (i j k idx depth : ℕ)
      → (first < idx) × (idx ≤ first + plane * depth)
      → k ≡ (idx - 1 - first) / plane + 1
      → j ≡ (idx - (k - 1) * plane - 1 - first) / line + 1
      → i ≡ idx - (j - 1) * line - (k - 1) * plane - first
      → (i + (j - 1) * line + (k - 1) * plane + first ≡ idx)
        × ((1 ≤ i) × (i ≤ line))
        × ((1 ≤ j) × (j ≤ rows))
        × ((1 ≤ k) × (k ≤ depth))
  repack i j k idx depth h ek ej ei =
      let (plane_pos, depth_pos) = pos_of_mul plane depth (omega arith) in
      let (line_pos, rows_pos) = pos_of_mul line rows (omega arith) in
      let above = div_bounds (idx - 1 - first) plane plane_pos in
      let below = quotient_lt (idx - 1 - first) plane depth plane_pos (omega arith) in
      let quotient : (idx - 1 - first) / plane ≡ k - 1 = omega arith in
      let in_plane : ((k - 1) * plane ≤ idx - 1 - first)
          × (idx - 1 - first < (k - 1) * plane + plane) =
        rw quotient at above in
      let rest = idx - (k - 1) * plane - 1 - first in
      let line_quotient : rest / line ≡ j - 1 = omega arith in
      let in_line : ((j - 1) * line ≤ rest) × (rest < (j - 1) * line + line) =
        rw line_quotient at (div_bounds rest line line_pos) in
      let row = quotient_lt rest line rows line_pos (omega arith) in
      (
        omega arith,
        (omega arith, omega arith),
        (omega arith, omega arith),
        (omega arith, omega arith),
      )
