-- ===== src/Numbering/SlabEnds.antt =====
-- The last three steps of `compute_slabs`, and the whole.
use mathlib.Core.Path.{ap₂}
use maia.Base.{
  ℕ, suc, ◌+◌, ◌-◌, ◌*◌, ◌/◌, ◌≤◌, ◌<◌, min, ltb, leb, ◌==◌, ◌≡◌, refl, ap, sym, ◌∙◌, ◌⊎◌, inl, inr,
  List, [], ◌∷◌, false, some, range, Bool-cases, arith, leb→le,
}
use maia.Base.Result.{ok}
use maia.Numbering.Flat.{div_of_parts, div_bounds, quotient_lt, line_in_plane}
use maia.Numbering.Slabs.{
  Slab, Progress, load_if, load_start_line, load_start_plane, load_central_block, load_end_plane,
  load_end_line, load_slabs, cell_to_indexes, compute_slabs,
}
use maia.Numbering.SlabCells.{cell, cells, line_slab, plane_slab, block_slab}
use maia.Numbering.SlabLaws.{Loaded, load_if-Loaded, AtPlane, Tail, line_lem, plane_lem}

module _ (nx ny low total : ℕ) (h : 0 < nx) (k : 0 < ny) where
  -- The next cell is the first of a plane of which a part is left, or a part of a line is left.
  abbrev LastPlane : ℕ → ℕ → Type 0
  LastPlane c left =
      ((left < nx * ny) × (z : ℕ) × (low + c ≡ cell nx ny 0 0 z)) ⊎ Tail nx ny low total c left

  plane_pos : 0 < nx * ny
  plane_pos = grind arith

  -- The planes that are left fit under the end of the array.
  planes_fit :
      (left c z nz : ℕ)
      → low + c ≡ cell nx ny 0 0 z
      → low + c + left ≤ nx * ny * nz
      → z + left / (nx * ny) ≤ nz
  planes_fit left c z nz e l =
      let plane = nx * ny in
      let (d, d') = div_bounds left plane plane_pos in
      elim (Bool-cases (leb (z + left / plane) nz)) [
        | inl t ↦ leb→le _ _ t
        | inr t ↦
            let t' : suc nz ≤ z + left / plane = ground arith in
            let m = z + left / plane - suc nz in
            let r : plane * (suc nz + m) ≡ plane * (z + left / plane) =
              ap (λ x. plane * x) (omega arith) in
            let p = plane_pos in omega arith
      ]

  no_planes : (left : ℕ) → left < nx → left / (nx * ny) ≡ 0
  no_planes left l =
      let r = line_in_plane left 0 nx ny l k in
      div_of_parts left left 0 (nx * ny) (omega arith) (omega arith)

  block_lem :
      (nz : ℕ) (p : Progress) (c : ℕ)
      → Loaded nx ny low total c p
      → low + total ≤ nx * ny * nz
      → AtPlane nx ny low total c p.ncell_to_load p.start
      → let p' = load_central_block nx ny (some nz) p in
        (c' : ℕ) × Loaded nx ny low total c' p' × LastPlane c' p'.ncell_to_load
  unfolding load_central_block load_if
  block_lem nz p c l b (inr t) =
      let q = no_planes p.ncell_to_load t.0 in
      let e : ltb 0 (min nz (p.start + p.ncell_to_load / (nx * ny)) - p.start) ≡ false =
        ground arith in
      rw e (c, l, inr t)
  block_lem nz p c (l, l') b (inl e) =
      let plane = nx * ny in
      let q = p.ncell_to_load / plane in
      let size = min nz (p.start + q) - p.start in
      let fit = planes_fit p.ncell_to_load c p.start nz e (omega arith) in
      let s : size ≡ q = omega arith in
      let (d, d') = div_bounds p.ncell_to_load plane plane_pos in
      let m : plane * size ≡ plane * q = ap (λ x. plane * x) s in
      elim (Bool-cases (ltb 0 size)) [
        | inl t ↦
            let slab =
              block_slab nx ny p.start (min nz (p.start + q)) (low + c) (plane * size) e
                (omega arith) in
            rw t (
              c + plane * size,
              load_if-Loaded nx ny low total (plane * size) _ p c (l, l') slab (omega arith),
              inl (omega arith, p.start + q, omega arith),
            )
        | inr t ↦
            let z : q ≡ 0 = ground arith in
            let z' : plane * q ≡ 0 = ap (λ x. plane * x) z ∙ (omega arith) in
            rw t (c, (l, l'), inl (omega arith, p.start, e))
      ]

  -- The plane and the line of the last cell.
  last_plane :
      (c left z : ℕ)
      → 0 < left
      → left ≤ nx * ny
      → c + left ≡ total
      → low + c ≡ cell nx ny 0 0 z
      → (low + total - 1) / (nx * ny) ≡ z
  last_plane c left z p b t e =
      div_of_parts (low + total - 1) (left - 1) z (nx * ny) (omega arith) (omega arith)

  last_line :
      (c left j z : ℕ)
      → 0 < left
      → left < nx
      → j < ny
      → c + left ≡ total
      → low + c ≡ cell nx ny 0 j z
      → let kmax = (low + total - 1) / (nx * ny) in
        (kmax ≡ z) × ((low + total - 1 - kmax * (nx * ny)) / nx ≡ j)
  last_line c left j z p b r t e =
      let low_part = line_in_plane (left - 1) j nx ny (omega arith) r in
      let kmax =
        div_of_parts (low + total - 1) (left - 1 + j * nx) z (nx * ny) low_part (omega arith) in
      let at : (low + total - 1) / (nx * ny) * (nx * ny) ≡ z * (nx * ny) =
        ap (λ x. x * (nx * ny)) kmax in
      (
        kmax,
        div_of_parts (low + total - 1 - (low + total - 1) / (nx * ny) * (nx * ny)) (left - 1) j nx
            (omega arith) (omega arith),
      )

  end_plane_lem :
      (p : Progress) (c : ℕ)
      → Loaded nx ny low total c p
      → LastPlane c p.ncell_to_load
      → let p' = load_end_plane nx ((low + total - 1) / (nx * ny)) p in
        (c' : ℕ) × Loaded nx ny low total c' p' × Tail nx ny low total c' p'.ncell_to_load
  unfolding load_end_plane load_if
  end_plane_lem p c l (inr t) =
      let e : leb nx p.ncell_to_load ≡ false = ground (arith, t.0) in rw e (c, l, t)
  end_plane_lem p c (l, l') (inl (b, z, e)) = elim (Bool-cases (leb nx p.ncell_to_load)) [
    | inl t ↦
        let t' = leb→le _ _ t in
        let lines = p.ncell_to_load / nx in
        let kmax = last_plane c p.ncell_to_load z (omega arith) (omega arith) l' e in
        let (d, d') = div_bounds p.ncell_to_load nx h in
        let few = quotient_lt p.ncell_to_load nx ny h b in
        let m : nx * (lines - 0) ≡ nx * lines = ap (λ x. nx * x) (omega arith) in
        let slab =
          plane_slab nx ny 0 lines ((low + total - 1) / (nx * ny)) (low + c) (nx * (lines - 0))
            (e ∙ ap (cell nx ny 0 0) (sym kmax)) (omega arith) in
        rw t (
          c + nx * (lines - 0),
          load_if-Loaded nx ny low total (nx * (lines - 0)) _ p c (l, l') slab (omega arith),
          (omega arith, inr (lines, z, few, omega arith)),
        )
    | inr t ↦
        let t' : p.ncell_to_load < nx = ground arith in rw t (c, (l, l'), (t', inr (0, z, k, e)))
  ]

  end_line_lem :
      (p : Progress) (c : ℕ)
      → Loaded nx ny low total c p
      → Tail nx ny low total c p.ncell_to_load
      → let kmax = (low + total - 1) / (nx * ny) in
        let p' = load_end_line ((low + total - 1 - kmax * (nx * ny)) / nx) kmax p in
        (cells nx ny p'.hslab_list ≡ range low total) × (p'.ncell_to_load ≡ 0)
  unfolding load_end_line load_if
  end_line_lem p c (l, l') (b, inl z) =
      let t : ltb 0 p.ncell_to_load ≡ false = ground arith in
      let c' : c ≡ total = omega arith in rw t (l ∙ ap (range low) c', z)
  end_line_lem p c (l, l') (b, inr (j, z, r, e)) = elim (Bool-cases (ltb 0 p.ncell_to_load)) [
    | inr t ↦
        let n : p.ncell_to_load ≡ 0 = ground arith in
        let c' : c ≡ total = omega arith in rw t (l ∙ ap (range low) c', n)
    | inl t ↦
        let t' : 0 < p.ncell_to_load = ground arith in
        let kmax = (low + total - 1) / (nx * ny) in
        let jmax = (low + total - 1 - kmax * (nx * ny)) / nx in
        let (ek, ej) = last_line c p.ncell_to_load j z t' b r l' e in
        let at = e ∙ ap₂ (λ x y. cell nx ny 0 x y) (sym ej) (sym ek) in
        let n : p.ncell_to_load - 0 ≡ p.ncell_to_load = omega arith in
        let slab = line_slab nx ny 0 p.ncell_to_load jmax kmax (low + c) at in
        let (done, m) =
          load_if-Loaded nx ny low total (p.ncell_to_load - 0) _ p c (l, l') slab (omega arith) in
        let c' : c + (p.ncell_to_load - 0) ≡ total = omega arith in
        rw t (done ∙ ap (range low) c', omega arith)
  ]

  steps_lem :
      (imin jmin kmin nz top : ℕ)
      → imin < nx
      → jmin < ny
      → low ≡ cell nx ny imin jmin kmin
      → low + total ≤ nx * ny * nz
      → top ≡ low + total - 1
      → let kmax = top / (nx * ny) in
        let line = load_start_line nx (imin, jmin, kmin) total in
        let block = load_central_block nx ny (some nz) (load_start_plane nx ny kmin line) in
        let p' =
          load_end_line ((top - kmax * (nx * ny)) / nx) kmax (load_end_plane nx kmax block) in
        (cells nx ny p'.hslab_list ≡ range low total) × (p'.ncell_to_load ≡ 0)
  steps_lem imin jmin kmin nz top hi hj e b last =
      let line = load_start_line nx (imin, jmin, kmin) total in
      let plane = load_start_plane nx ny kmin line in
      let block = load_central_block nx ny (some nz) plane in
      let (c₁, l₁, s₁, a₁) = line_lem nx ny low total imin jmin kmin hi hj e in
      let (c₂, l₂, a₂) = plane_lem nx ny low total kmin line c₁ h k l₁ s₁ a₁ in
      let (c₃, l₃, a₃) = block_lem nz plane c₂ l₂ b a₂ in
      let (c₄, l₄, a₄) = end_plane_lem block c₃ l₃ a₃ in
      rw last (end_line_lem (load_end_plane nx ((low + total - 1) / (nx * ny)) block) c₄ l₄ a₄)

-- The assertion and the result, from what the steps leave.
slabs_of :
    (nx ny nz low high : ℕ)
    → 0 < nx * ny
    → let p = load_slabs nx ny (some nz) (low, high) in
      (cells nx ny p.hslab_list ≡ range low (high - low)) × (p.ncell_to_load ≡ 0)
      → (slabs : List Slab) × (compute_slabs (nx ∷ ny ∷ nz ∷ []) (low, high) ≡ ok slabs)
        × (cells nx ny slabs ≡ range low (high - low))
unfolding compute_slabs
slabs_of nx ny nz low high p (e, n) =
    let b : ((nx * ny) == 0) ≡ false = ground arith in
    ((load_slabs nx ny (some nz) (low, high)).hslab_list, rw (b, n) refl, e)

-- In an array of three directions with lines and planes that are not empty, for an interval of its
-- cells, `compute_slabs` raises nothing, and its assertion holds. The cells of the slabs, one slab
-- after the other and each by increasing `i`, `j` and `k`, are those of the interval in order.
pub compute_slabs-cells :
    (nx ny nz low high : ℕ)
    → 0 < nx
    → 0 < ny
    → low < high
    → high ≤ nx * ny * nz
    → (slabs : List Slab) × (compute_slabs (nx ∷ ny ∷ nz ∷ []) (low, high) ≡ ok slabs)
      × (cells nx ny slabs ≡ range low (high - low))
unfolding load_slabs cell_to_indexes
compute_slabs-cells nx ny nz low high h k l b =
    let p = plane_pos nx ny low (high - low) h k in
    let kmin = low / (nx * ny) in
    let rest = low - kmin * (nx * ny) in
    let (d, d') = div_bounds low (nx * ny) p in
    let (g, g') = div_bounds rest nx h in
    slabs_of nx ny nz low high p (
      steps_lem nx ny low (high - low) h k (rest - rest / nx * nx) (rest / nx) kmin nz (high - 1)
        (omega arith) (quotient_lt rest nx ny h (omega arith)) (omega arith) (omega arith)
        (omega arith))
