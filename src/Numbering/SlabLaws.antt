-- ===== src/Numbering/SlabLaws.antt =====
-- The slabs of an interval hold its cells, in order.
use maia.Base.{
  ℕ, ◌+◌, ◌-◌, ◌*◌, ◌/◌, ◌≤◌, ◌<◌, min, ltb, leb, ◌==◌, ◌≡◌, refl, ap, ◌∙◌, ◌⊎◌, inl, inr, true,
  false, range, range-append, Bool-cases, arith, ==_iff, leb→le, append-nil,
}
use maia.Numbering.Flat.{div_of_parts, div_bounds}
use maia.Numbering.Slabs.{Slab, Progress, load_if, load_start_line, load_start_plane}
use maia.Numbering.SlabCells.{cell, slab_cells, cells, cells-append, line_slab, plane_slab}

module _ (nx ny low total : ℕ) where
  -- The first cells of the interval, this many, are loaded, and the others are counted.
  abbrev pub Loaded : ℕ → Progress → Type 0
  Loaded c p = (cells nx ny p.hslab_list ≡ range low c) × (c + p.ncell_to_load ≡ total)

  pub load_if-Loaded :
      (n : ℕ) (slab : Slab) (p : Progress) (c : ℕ)
      → Loaded c p
      → slab_cells nx ny slab ≡ range (low + c) n
      → n ≤ p.ncell_to_load
      → Loaded (c + n) (load_if true n slab p)
  unfolding load_if
  load_if-Loaded n slab p c (e, h) k l = (
    cells-append nx ny p.hslab_list slab ∙ (rw (e, k) (range-append low c (low + c) n refl)),
    omega arith,
  )

  -- Where the next cell is: none is left, or it is the first of a line.
  abbrev pub AtLine : ℕ → ℕ → ℕ → ℕ → Type 0
  AtLine c left j k = (left ≡ 0) ⊎ (low + c ≡ cell nx ny 0 j k)

  line_done :
      (imin jmin kmin : ℕ)
      → imin < nx
      → low ≡ cell nx ny imin jmin kmin
      → AtLine
          (min nx (imin + total) - imin)
          (total - (min nx (imin + total) - imin))
          (jmin + 1)
          kmin
  line_done imin jmin kmin h e = elim (Bool-cases (leb (imin + total) nx)) [
    | inl t ↦ let t' = leb→le _ _ t in inl (omega arith)
    | inr t ↦ let t' : nx < imin + total = ground arith in inr (omega arith)
  ]

  pub line_lem :
      (imin jmin kmin : ℕ)
      → imin < nx
      → jmin < ny
      → low ≡ cell nx ny imin jmin kmin
      → let p = load_start_line nx (imin, jmin, kmin) total in
        (c : ℕ) × Loaded c p × (p.start ≤ ny) × AtLine c p.ncell_to_load p.start kmin
  unfolding load_start_line cells load_if
  line_lem imin jmin kmin h k e =
      let line_end = min nx (imin + total) in
      elim (Bool-cases ((line_end - imin) == nx)) [
        | inl b ↦
            let b' = (==_iff _ _).0 b in
            rw b (0, (refl, omega arith), omega arith, inr (omega arith))
        | inr b ↦ elim (Bool-cases (ltb 0 (line_end - imin))) [
          | inl t ↦
              rw (b, t)
                (
                  line_end - imin,
                  (append-nil _ ∙ line_slab nx ny imin line_end jmin kmin low e, omega arith),
                  omega arith,
                  line_done imin jmin kmin h e,
                )
          | inr t ↦
              rw (b, t)
                (
                  0,
                  (refl, omega arith),
                  omega arith,
                  inl (let t' : line_end - imin ≡ 0 = ground arith in omega arith),
                )
        ]
      ]

  -- What is left is a part of a line.
  abbrev pub Tail : ℕ → ℕ → Type 0
  Tail c left =
      (left < nx) × ((left ≡ 0) ⊎ (j : ℕ) × (k : ℕ) × (j < ny) × (low + c ≡ cell nx ny 0 j k))

  -- The next cell is the first of a plane, or only a part of a line is left.
  abbrev pub AtPlane : ℕ → ℕ → ℕ → Type 0
  AtPlane c left k = (low + c ≡ cell nx ny 0 0 k) ⊎ Tail c left

  -- Some lines of a plane, from the line `j` on, fill it or leave a part of a line.
  plane_done :
      (c left j k size : ℕ)
      → 0 < nx
      → j ≤ ny
      → low + c ≡ cell nx ny 0 j k
      → size ≡ min ny (j + left / nx) - j
      → AtPlane (c + nx * size) (left - nx * size) (k + 1)
  plane_done c left j k size h l e s =
      let (d, d') = div_bounds left nx h in
      elim (Bool-cases (leb ny (j + left / nx))) [
        | inl t ↦
            let t' = leb→le _ _ t in
            let r : nx * (j + size) ≡ nx * ny = ap (λ x. nx * x) (omega arith) in inl (omega arith)
        | inr t ↦
            let t' : j + left / nx < ny = ground arith in
            let q : nx * size ≡ nx * (left / nx) = ap (λ x. nx * x) (omega arith) in
            inr (omega arith, inr (j + left / nx, k, t', omega arith))
      ]

  lines_fit : (left j : ℕ) → 0 < nx → nx * (min ny (j + left / nx) - j) ≤ left
  lines_fit left j h =
      let (d, d') = div_bounds left nx h in
      let size = min ny (j + left / nx) - j in
      let r : nx * (size + (left / nx - size)) ≡ nx * (left / nx) =
        ap (λ x. nx * x) (omega arith) in
      omega arith

  no_lines : (left j size : ℕ) → 0 < nx → left ≡ 0 → size ≡ min ny (j + left / nx) - j → size ≡ 0
  no_lines left j size h z s = let q = div_of_parts left 0 0 nx h (omega arith) in omega arith

  pub plane_lem :
      (kmin : ℕ) (p : Progress) (c : ℕ)
      → 0 < nx
      → 0 < ny
      → Loaded c p
      → p.start ≤ ny
      → AtLine c p.ncell_to_load p.start kmin
      → let p' = load_start_plane nx ny kmin p in
        (c' : ℕ) × Loaded c' p' × AtPlane c' p'.ncell_to_load p'.start
  unfolding load_start_plane load_if
  plane_lem kmin p c h k l s (inl z) =
      let size = min ny (p.start + p.ncell_to_load / nx) - p.start in
      let e = no_lines p.ncell_to_load p.start size h z refl in
      let b : (size == ny) ≡ false = ground arith in
      let t : ltb 0 size ≡ false = ground arith in rw (b, t) (c, l, inr (omega arith, inl z))
  plane_lem kmin p c h k l s (inr e) =
      let size = min ny (p.start + p.ncell_to_load / nx) - p.start in
      let done = plane_done c p.ncell_to_load p.start kmin size h s e refl in
      elim (Bool-cases (size == ny)) [
        | inl b ↦
            let b' = (==_iff _ _).0 b in
            let z : p.start ≡ 0 = omega arith in
            rw b (c, l, inl (e ∙ ap (λ j. cell nx ny 0 j kmin) z))
        | inr b ↦ elim (Bool-cases (ltb 0 size)) [
          | inl t ↦
              let slab =
                plane_slab nx ny p.start (min ny (p.start + p.ncell_to_load / nx)) kmin (low + c)
                  (nx * size) e (omega arith) in
              rw (b, t)
                (
                  c + nx * size,
                  load_if-Loaded (nx * size) _ p c l slab (lines_fit p.ncell_to_load p.start h),
                  done,
                )
          | inr t ↦
              let z : size ≡ 0 = ground arith in
              let z' : nx * size ≡ 0 = ap (λ x. nx * x) z ∙ (omega arith) in
              let c' : c + nx * size ≡ c = omega arith in
              let n' : p.ncell_to_load - nx * size ≡ p.ncell_to_load = omega arith in
              rw (b, t) (c, l, rw (c', n') at done)
        ]
      ]
