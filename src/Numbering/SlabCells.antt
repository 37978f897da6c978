-- ===== src/Numbering/SlabCells.antt =====
-- The cells of a slab, by their numbers in the flattened array.
use maia.Base.{
  ℕ, zero, suc, ◌+◌, ◌-◌, ◌*◌, ◌≡◌, refl, ap, sym, ◌∙◌, List, [], ◌∷◌, ◌++◌, map, concat, range,
  range-append, append-nil, append_assoc, arith,
}
use maia.Numbering.Slabs.{Slab}

abbrev pub interval : ℕ × ℕ → List ℕ
interval (a, b) = range a (b - a)

module _ (nx ny : ℕ) where
  abbrev pub cell : ℕ → ℕ → ℕ → ℕ
  cell i j k = i + j * nx + k * (nx * ny)

  -- Increasing `i`, then `j`, then `k`.
  unfoldable pub line_cells : ℕ × ℕ → ℕ → ℕ → List ℕ
  line_cells is j k = map (λ i. cell i j k) (interval is)

  unfoldable pub plane_cells : ℕ × ℕ → ℕ × ℕ → ℕ → List ℕ
  plane_cells is js k = concat (map (λ j. line_cells is j k) (interval js))

  unfoldable pub slab_cells : Slab → List ℕ
  unfolding plane_cells
  slab_cells s = concat (map (λ k. plane_cells s.i s.j k) (interval s.k))

  unfoldable pub cells : List Slab → List ℕ
  cells slabs = concat (map slab_cells slabs)

map-range :
    (f : ℕ → ℕ) (base : ℕ)
    → ((i : ℕ) → f i ≡ i + base)
    → (start count first : ℕ) → first ≡ start + base
    → map f (range start count) ≡ range first count
map-range f base h start zero first e = refl
map-range f base h start (suc count) first e =
    let k : f start ≡ first = omega (h start, arith) in
    rw k (ap (λ l. first ∷ l) (map-range f base h (suc start) count (suc first) (omega arith)))

concat-blocks :
    (f : ℕ → List ℕ) (base step : ℕ)
    → ((j : ℕ) → f j ≡ range (j * step + base) step)
    → (start count first size : ℕ) → first ≡ start * step + base
    → size ≡ count * step
    → concat (map f (range start count)) ≡ range first size
concat-blocks f base step h start zero first size e k = let z : size ≡ 0 = omega arith in rw z refl
concat-blocks f base step h start (suc count) first size e k =
    let z : size ≡ step + count * step = omega arith in
    rw
      (
        h start,
        sym e,
        concat-blocks f base step h (suc start) count (first + step) (count * step) (omega arith)
            refl,
      )
      (range-append first step (first + step) (count * step) refl ∙ ap (range first) (sym z))

module _ (nx ny : ℕ) where
  line_cells_lem :
      (a b j k first size : ℕ)
      → first ≡ cell nx ny a j k
      → size ≡ b - a
      → line_cells nx ny (a, b) j k ≡ range first size
  unfolding line_cells
  line_cells_lem a b j k first size e h = rw h (
      map-range (λ i. cell nx ny i j k) (j * nx + k * (nx * ny)) (λ i. omega arith) a (b - a) first
        (omega arith))

  plane_cells_lem :
      (a b k first size : ℕ)
      → first ≡ cell nx ny 0 a k
      → size ≡ (b - a) * nx
      → plane_cells nx ny (0, nx) (a, b) k ≡ range first size
  unfolding plane_cells
  plane_cells_lem a b k first size e h =
      concat-blocks (λ j. line_cells nx ny (0, nx) j k) (k * (nx * ny)) nx
        (λ j. line_cells_lem 0 nx j k (j * nx + k * (nx * ny)) nx (omega arith) (omega arith)) a
        (b - a) first size (omega arith) h

  -- A part of a line, some lines of a plane, and some planes.
  pub line_slab :
      (a b j k first : ℕ)
      → first ≡ cell nx ny a j k
      → slab_cells nx ny (record { i = (a, b); j = (j, j + 1); k = (k, k + 1) })
        ≡ range first (b - a)
  unfolding slab_cells plane_cells
  line_slab a b j k first e =
      let one : (k + 1) - k ≡ 1 = omega arith in
      let one' : (j + 1) - j ≡ 1 = omega arith in
      rw (one, one', line_cells_lem a b j k first (b - a) e refl) (append-nil _ ∙ append-nil _)

  pub plane_slab :
      (a b k first size : ℕ)
      → first ≡ cell nx ny 0 a k
      → size ≡ (b - a) * nx
      → slab_cells nx ny (record { i = (0, nx); j = (a, b); k = (k, k + 1) }) ≡ range first size
  unfolding slab_cells
  plane_slab a b k first size e h =
      let one : (k + 1) - k ≡ 1 = omega arith in
      rw (one, plane_cells_lem a b k first size e h) (append-nil _)

  pub block_slab :
      (a b first size : ℕ)
      → first ≡ cell nx ny 0 0 a
      → size ≡ (b - a) * (nx * ny)
      → slab_cells nx ny (record { i = (0, nx); j = (0, ny); k = (a, b) }) ≡ range first size
  unfolding slab_cells
  block_slab a b first size e h =
      concat-blocks (λ k. plane_cells nx ny (0, nx) (0, ny) k) 0 (nx * ny)
        (λ k. plane_cells_lem 0 ny k (k * (nx * ny) + 0) (nx * ny) (omega arith) (grind arith)) a
        (b - a) first size (omega arith) h

  pub cells-append :
      (slabs : List Slab) (slab : Slab)
      → cells nx ny (slabs ++ slab ∷ []) ≡ cells nx ny slabs ++ slab_cells nx ny slab
  unfolding cells
  cells-append [] slab = append-nil _
  cells-append (s ∷ slabs) slab =
      ap (λ l. slab_cells nx ny s ++ l) (cells-append slabs slab)
      ∙ sym (append_assoc (slab_cells nx ny s) (cells nx ny slabs) (slab_cells nx ny slab))
