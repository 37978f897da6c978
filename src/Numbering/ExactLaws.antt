-- ===== src/Numbering/ExactLaws.antt =====
-- On numbers without a bound the two conversions are inverse for each kind of entity, between the positions in the block and
-- the indices that its entities have.
use maia.Base.{ℕ, ◌+◌, ◌-◌, ◌*◌, ◌/◌, ◌≤◌, ◌<◌, ◌≡◌, refl, ap, ◌∙◌, arith}
use maia.Base.Result.{ok}
use maia.Numbering.Block.{
  Size, Ijk, Location, vertex, cell_center, i_face_center, j_face_center, k_face_center,
  unsupported,
}
use maia.Numbering.Exact.{
  cells, ijk_to_index, index_to_ijk, ijk_to_facei_index, facei_index_to_ijk, ijk_to_facej_index,
  facej_index_to_ijk, ijk_to_facek_index, facek_index_to_ijk, ijk_to_index_from_loc,
  index_to_ijk_from_loc,
}
use maia.Numbering.Flat.{unpack, unpack_bounds, repack}

-- The number of entities in each direction.
abbrev pub extent : Location → Size → Size
extent vertex n = n
extent cell_center n = cells n
extent i_face_center n = record { x = n.x; y = n.y - 1; z = n.z - 1 }
extent j_face_center n = record { x = n.x - 1; y = n.y; z = n.z - 1 }
extent k_face_center n = record { x = n.x - 1; y = n.y - 1; z = n.z }
extent unsupported n = n

-- The faces along `j` come after those along `i`, and those along `k` after both.
abbrev pub first : Location → Size → ℕ
first vertex n = 0
first cell_center n = 0
first i_face_center n = 0
first j_face_center n = n.x * (n.y - 1) * (n.z - 1)
first k_face_center n = n.x * (n.y - 1) * (n.z - 1) + n.y * (n.x - 1) * (n.z - 1)
first unsupported n = 0

abbrev pub InBlock : Size → ℕ → ℕ → ℕ → Type 0
InBlock e i j k = ((1 ≤ i) × (i ≤ e.x)) × ((1 ≤ j) × (j ≤ e.y)) × ((1 ≤ k) × (k ≤ e.z))

abbrev pub volume : Size → ℕ
volume e = e.x * e.y * e.z

-- What holds of a pair of conversions over a box whose numbering starts after `f`.
record IsInverse (e : Size) (f : ℕ) (to : ℕ → ℕ → ℕ → ℕ) (back : ℕ → Ijk) : Type 0 where
  bounds : (i j k : ℕ) → InBlock e i j k → (f < to i j k) × (to i j k ≤ f + volume e)
  back-to : (i j k : ℕ) → InBlock e i j k → back (to i j k) ≡ (i, j, k)
  back-InBlock :
      (idx : ℕ)
      → (f < idx) × (idx ≤ f + volume e)
      → InBlock e (back idx).0 (back idx).1 (back idx).2
  to-back :
      (idx : ℕ) → (f < idx) × (idx ≤ f + volume e) → to (back idx).0 (back idx).1 (back idx).2 ≡ idx

module _ (e : Size) (f plane : ℕ) (planes : plane ≡ e.x * e.y) (to : ℕ → ℕ → ℕ → ℕ) (back : ℕ → Ijk)
    (to-flat : (i j k : ℕ) → to i j k ≡ i + (j - 1) * e.x + (k - 1) * plane + f)
    (k-flat : (idx : ℕ) → (back idx).2 ≡ (idx - 1 - f) / plane + 1)
    (j-flat : (idx : ℕ) → (back idx).1 ≡ (idx - ((back idx).2 - 1) * plane - 1 - f) / e.x + 1)
    (i-flat : (idx : ℕ)
      → (back idx).0 ≡ idx - ((back idx).1 - 1) * e.x - ((back idx).2 - 1) * plane - f) where
  box : plane * e.z ≡ volume e
  box = rw planes

  back_lem :
      (i j k : ℕ)
      → InBlock e i j k
      → ((back (to i j k)).0 ≡ i) × ((back (to i j k)).1 ≡ j) × ((back (to i j k)).2 ≡ k)
  back_lem i j k h =
      let idx = to i j k in
      let (uk, uj, ui) = unpack e.x e.y plane f planes i j k idx h.0 h.1 h.2.0 (to-flat i j k) in
      let sk : (back idx).2 ≡ k = k-flat idx ∙ uk in
      let sj : (back idx).1 ≡ j = j-flat idx ∙ rw sk uj in
      let si : (back idx).0 ≡ i = i-flat idx ∙ rw (sk, sj) ui in (si, sj, sk)

  flat-IsInverse : IsInverse e f to back
  flat-IsInverse = record {
    bounds = λ i j k h.
        rw (← box)
          (unpack_bounds e.x e.y plane f planes i j k (to i j k) e.z h.0 h.1 h.2 (to-flat i j k));
    back-to = λ i j k h. let (si, sj, sk) = back_lem i j k h in ground arith;
    back-InBlock = λ idx h. (repacked idx h).1;
    to-back = λ idx h. to-flat _ _ _ ∙ (repacked idx h).0;
  }
    where
      repacked :
          (idx : ℕ)
          → (f < idx) × (idx ≤ f + volume e)
          → ((back idx).0 + ((back idx).1 - 1) * e.x + ((back idx).2 - 1) * plane + f ≡ idx)
            × InBlock e (back idx).0 (back idx).1 (back idx).2
      repacked idx h =
          let (same, i, j, k) =
            repack e.x e.y plane f planes (back idx).0 (back idx).1 (back idx).2 idx e.z
              (omega (arith, box)) (k-flat idx) (j-flat idx) (i-flat idx) in
          (same, (i, j, k))

index-IsInverse :
    (e : Size) → IsInverse e 0 (λ i j k. ijk_to_index i j k e) (λ idx. index_to_ijk idx e)
unfolding ijk_to_index index_to_ijk
index-IsInverse e =
    flat-IsInverse e 0 (e.x * e.y) refl _ _ (λ i j k. omega arith)
      (λ idx. ap (λ (m : ℕ). m / (e.x * e.y) + 1) (omega arith))
      (λ idx. ap (λ (m : ℕ). m / e.x + 1) (omega arith)) (λ idx. omega arith)

module _ (n : Size) where
  facei-IsInverse :
      IsInverse
        (extent i_face_center n)
        0
        (λ i j k. ijk_to_facei_index i j k (cells n) n)
        (λ idx. facei_index_to_ijk idx (cells n) n)
  unfolding ijk_to_facei_index facei_index_to_ijk
  facei-IsInverse =
      flat-IsInverse _ 0 (n.x * (n.y - 1)) refl _ _ (λ i j k. omega arith)
        (λ idx. ap (λ (m : ℕ). m / (n.x * (n.y - 1)) + 1) (omega arith))
        (λ idx. ap (λ (m : ℕ). m / n.x + 1) (omega arith)) (λ idx. omega arith)

  facej-IsInverse :
      IsInverse
        (extent j_face_center n)
        (first j_face_center n)
        (λ i j k. ijk_to_facej_index i j k (cells n) n)
        (λ idx. facej_index_to_ijk idx (cells n) n)
  unfolding ijk_to_facej_index facej_index_to_ijk
  facej-IsInverse =
      flat-IsInverse _ _ (n.y * (n.x - 1)) (omega arith) _ _ (λ i j k. omega arith) (λ idx. refl)
        (λ idx. refl) (λ idx. refl)

  facek-IsInverse :
      IsInverse
        (extent k_face_center n)
        (first k_face_center n)
        (λ i j k. ijk_to_facek_index i j k (cells n) n)
        (λ idx. facek_index_to_ijk idx (cells n) n)
  unfolding ijk_to_facek_index facek_index_to_ijk
  facek-IsInverse =
      flat-IsInverse _ _ ((n.x - 1) * (n.y - 1)) refl _ _ (λ i j k. omega arith)
        (λ idx. ap (λ (m : ℕ). m / ((n.x - 1) * (n.y - 1)) + 1) (omega arith))
        (λ idx. ap (λ (m : ℕ). m / (n.x - 1) + 1) (omega arith)) (λ idx. omega arith)

-- The two ways through an inverse pair, from an equation for what the conversion gives.
module _ {e : Size} {f : ℕ} {to : ℕ → ℕ → ℕ → ℕ} {back : ℕ → Ijk} where
  through :
      IsInverse e f to back
      → (i j k idx : ℕ) → InBlock e i j k
      → to i j k ≡ idx
      → (f < idx) × (idx ≤ f + volume e) × (ok (back idx) ≡ ok (i, j, k))
  through v i j k idx h q =
      let (low, high) = v.bounds i j k h in rw (← q) (low, high, ap ok (v.back-to i j k h))

  from :
      IsInverse e f to back
      → (idx : ℕ) (t : Ijk) → (f < idx) × (idx ≤ f + volume e)
      → back idx ≡ t
      → InBlock e t.0 t.1 t.2 × (ok (to t.0 t.1 t.2) ≡ ok idx)
  from v idx t h q = rw (← q) (v.back-InBlock idx h, ap ok (v.to-back idx h))

-- The index of an entity of the block lies among those of its kind, which follow one another, and
-- leads back to the entity.
pub exact_there_and_back :
    (loc : Location) (n : Size) (i j k : ℕ) {idx : ℕ}
    → InBlock (extent loc n) i j k
    → ijk_to_index_from_loc i j k loc n ≡ ok idx
    → (first loc n < idx)
      × (idx ≤ first loc n + volume (extent loc n))
      × (index_to_ijk_from_loc idx loc n ≡ ok (i, j, k))
unfolding ijk_to_index_from_loc index_to_ijk_from_loc
exact_there_and_back vertex n i j k h e = through (index-IsInverse n) i j k _ h (cc)
exact_there_and_back cell_center n i j k h e = through (index-IsInverse (cells n)) i j k _ h (cc)
exact_there_and_back i_face_center n i j k h e = through (facei-IsInverse n) i j k _ h (cc)
exact_there_and_back j_face_center n i j k h e = through (facej-IsInverse n) i j k _ h (cc)
exact_there_and_back k_face_center n i j k h e = through (facek-IsInverse n) i j k _ h (cc)
exact_there_and_back unsupported n i j k h e = cc

-- Every index of that range is the index of an entity of the block.
pub exact_back_and_there :
    (loc : Location) (n : Size) (idx i j k : ℕ)
    → (first loc n < idx) × (idx ≤ first loc n + volume (extent loc n))
    → index_to_ijk_from_loc idx loc n ≡ ok (i, j, k)
    → InBlock (extent loc n) i j k × (ijk_to_index_from_loc i j k loc n ≡ ok idx)
unfolding ijk_to_index_from_loc index_to_ijk_from_loc
exact_back_and_there vertex n idx i j k h e = from (index-IsInverse n) idx (i, j, k) h (cc)
exact_back_and_there cell_center n idx i j k h e =
    from (index-IsInverse (cells n)) idx (i, j, k) h (cc)
exact_back_and_there i_face_center n idx i j k h e = from (facei-IsInverse n) idx (i, j, k) h (cc)
exact_back_and_there j_face_center n idx i j k h e = from (facej-IsInverse n) idx (i, j, k) h (cc)
exact_back_and_there k_face_center n idx i j k h e = from (facek-IsInverse n) idx (i, j, k) h (cc)
exact_back_and_there unsupported n idx i j k h e = cc
