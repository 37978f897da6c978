-- ===== src/Numbering/Slabs.antt =====
-- `maia/utils/numbering/range_to_slab.py`. The interval does not end before it begins; from there
-- no difference goes under 0, but that of a place beyond the array, where the source tests `> 0`.
use maia.Base.{
  ℕ, ◌+◌, ◌-◌, ◌*◌, ◌/◌, min, ltb, leb, ◌==◌, List, [], ◌∷◌, ◌++◌, Option, none, some,
  if◌then◌else◌, Bool,
}
use maia.Base.Result.{Result, ok, raised, value_error, zero_division_error, ◌>>◌, assert}

-- `[[istart, iend], [jstart, jend], [kstart, kend]]`
pub record Slab : Type 0 where
  pub i : ℕ × ℕ
  pub j : ℕ × ℕ
  pub k : ℕ × ℕ

unfoldable pub cell_to_indexes : ℕ → ℕ → ℕ → ℕ × ℕ × ℕ
cell_to_indexes i_cell plan_size line_size =
    let k = i_cell / plan_size in
    let j = (i_cell - k * plan_size) / line_size in
    let i = i_cell - k * plan_size - j * line_size in (i, j, k)

-- What `compute_slabs` has at a point: the start in the next direction, the cells left, the slabs.
pub record Progress : Type 0 where
  pub start : ℕ
  pub ncell_to_load : ℕ
  pub hslab_list : List Slab

-- `hslab_list.append(slab)` and `ncell_to_load -= n`, if the test holds.
unfoldable pub load_if : Bool → ℕ → Slab → Progress → Progress
load_if test n slab p =
    if test
    then record p { ncell_to_load = p.ncell_to_load - n; hslab_list = p.hslab_list ++ (slab ∷ []) }
    else p

-- The part on the first line; `start` is `jstart` after it.
unfoldable pub load_start_line : ℕ → ℕ × ℕ × ℕ → ℕ → Progress
unfolding load_if
load_start_line nx (imin, jmin, kmin) n =
    let line_end = min nx (imin + n) in
    let this_line_size = line_end - imin in
    let start_line : Slab = record {
      i = (imin, line_end);
      j = (jmin, jmin + 1);
      k = (kmin, kmin + 1);
    } in
    if this_line_size == nx
    then record { start = jmin; ncell_to_load = n; hslab_list = [] }
    else load_if (ltb 0 this_line_size) this_line_size start_line
        (record { start = jmin + 1; ncell_to_load = n; hslab_list = [] })

-- The part on the first plane; `start` is `jstart` before it and `kstart` after it.
unfoldable pub load_start_plane : ℕ → ℕ → ℕ → Progress → Progress
unfolding load_if
load_start_plane nx ny kmin p =
    let plane_end = min ny (p.start + p.ncell_to_load / nx) in
    let this_plan_size = plane_end - p.start in
    let start_plane : Slab = record {
      i = (0, nx);
      j = (p.start, plane_end);
      k = (kmin, kmin + 1);
    } in
    if this_plan_size == ny
    then record p { start = kmin }
    else load_if (ltb 0 this_plan_size) (nx * this_plan_size) start_plane
        (record p { start = kmin + 1 })

unfoldable pub load_central_block : ℕ → ℕ → Option ℕ → Progress → Progress
unfolding load_if
load_central_block nx ny none p = p
load_central_block nx ny (some nz) p =
    let block_end = min nz (p.start + p.ncell_to_load / (nx * ny)) in
    let this_block_size = block_end - p.start in
    load_if (ltb 0 this_block_size) (nx * ny * this_block_size)
      (record { i = (0, nx); j = (0, ny); k = (p.start, block_end) }) p

unfoldable pub load_end_plane : ℕ → ℕ → Progress → Progress
unfolding load_if
load_end_plane nx kmax p =
    let lines = p.ncell_to_load / nx in
    load_if (leb nx p.ncell_to_load) (nx * (lines - 0))
      (record { i = (0, nx); j = (0, lines); k = (kmax, kmax + 1) }) p

unfoldable pub load_end_line : ℕ → ℕ → Progress → Progress
unfolding load_if
load_end_line jmax kmax p =
    let n = p.ncell_to_load in
    load_if (ltb 0 n) (n - 0) (record { i = (0, n); j = (jmax, jmax + 1); k = (kmax, kmax + 1) }) p

-- The steps of `compute_slabs` in a plane or block with no empty direction.
unfoldable pub load_slabs : ℕ → ℕ → Option ℕ → ℕ × ℕ → Progress
unfolding cell_to_indexes load_start_line load_start_plane load_central_block load_end_plane
    load_end_line
load_slabs nx ny nz (low, high) =
    let (imin, jmin, kmin) = cell_to_indexes low (nx * ny) nx in
    let (imax, jmax, kmax) = cell_to_indexes (high - 1) (nx * ny) nx in
    let line = load_start_line nx (imin, jmin, kmin) (high - low) in
    let plane = load_start_plane nx ny kmin line in
    let block = load_central_block nx ny nz plane in
    load_end_line jmax kmax (load_end_plane nx kmax block)

-- `array_shape[2]`, where `dim` is 3.
abbrev pub third : List ℕ → Option ℕ
third (nz ∷ []) = some nz
third [] = none
third (nz ∷ n ∷ ns) = none

unfoldable pub compute_slabs : List ℕ → ℕ × ℕ → Result (List Slab)
unfolding load_slabs
compute_slabs [] interval = raised value_error
compute_slabs (nx ∷ []) interval = raised value_error
compute_slabs (nx ∷ ny ∷ rest) interval =
    if nx * ny == 0
    then raised zero_division_error
    else let p = load_slabs nx ny (third rest) interval in
      assert (p.ncell_to_load == 0) >> ok p.hslab_list
