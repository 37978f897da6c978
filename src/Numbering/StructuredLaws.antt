-- ===== src/Numbering/StructuredLaws.antt =====
-- Where the integers are wide enough, the numbering in them is the one on numbers without a bound, and
-- for each kind of entity the two conversions are inverse, between the positions in the block and the
-- indices that its entities have.
use native.Mathlib.Nat.{le-mul_of_pos_right, mul-le-mul, one-le-mul}
use maia.Base.{ℕ, ◌+◌, ◌-◌, ◌*◌, ◌≤◌, ◌<◌, ◌≡◌, refl, ap, sym, ◌∙◌, [], ◌∷◌, arith, ◌⊎◌, inl, inr}
use maia.Base.Result.{ok, raised, value_error}
use maia.Numbering.Block.{
  Integers, Size, Ijk, Location, vertex, cell_center, i_face_center, j_face_center, k_face_center,
  unsupported,
}
use maia.Numbering.Exact
use maia.Numbering.ExactLaws.{
  extent, first, InBlock, volume, exact_there_and_back, exact_back_and_there,
}
use maia.Numbering.FitLaws.{flat_fits, triple_fits}
use maia.Numbering.Structured.{
  ijk_to_index, index_to_ijk, ijk_to_facei_index, facei_index_to_ijk, ijk_to_facej_index,
  facej_index_to_ijk, ijk_to_facek_index, facek_index_to_ijk, ijk_to_index_from_loc,
  index_to_ijk_from_loc,
}

-- Three times the number of vertices of the block, which is more than the number of its faces, is an
-- integer of the array.
abbrev pub Fits : Integers → Size → Type 0
Fits ints n = 3 * (n.x * n.y * n.z) < ints.bound

abbrev pub IsPositive : Size → Type 0
IsPositive n = (1 ≤ n.x) × (1 ≤ n.y) × (1 ≤ n.z)

pub product_mono : (a b c x y z : ℕ) → a ≤ x → b ≤ y → c ≤ z → a * b * c ≤ x * y * z
product_mono a b c x y z h k l = mul-le-mul (mul-le-mul h k) l

first_bound :
    (loc : Location) (n : Size) → first loc n + volume (extent loc n) ≤ 3 * (n.x * n.y * n.z)
first_bound loc n =
    let p =
      product_mono n.x (n.y - 1) (n.z - 1) n.x n.y n.z (omega arith) (omega arith) (omega arith) in
    let q =
      product_mono n.y (n.x - 1) (n.z - 1) n.y n.x n.z (omega arith) (omega arith) (omega arith) in
    bound loc p q
  where
    bound :
        (loc : Location)
        → n.x * (n.y - 1) * (n.z - 1) ≤ n.x * n.y * n.z
        → n.y * (n.x - 1) * (n.z - 1) ≤ n.y * n.x * n.z
        → first loc n + volume (extent loc n) ≤ 3 * (n.x * n.y * n.z)
    bound vertex p q = omega arith
    bound cell_center p q =
        let r =
          product_mono (n.x - 1) (n.y - 1) (n.z - 1) n.x n.y n.z (omega arith) (omega arith)
            (omega arith) in
        omega arith
    bound i_face_center p q = omega arith
    bound j_face_center p q =
        let r =
          product_mono (n.x - 1) n.y (n.z - 1) n.x n.y n.z (omega arith) (omega arith)
            (omega arith) in
        omega arith
    bound k_face_center p q =
        let r =
          product_mono (n.x - 1) (n.y - 1) n.z n.x n.y n.z (omega arith) (omega arith)
            (omega arith) in
        omega arith
    bound unsupported p q = omega arith

-- What the sizes and their products are bounded by.
sizes_bound :
    (n : Size)
    → IsPositive n
    → (n.x ≤ n.x * n.y * n.z)
      × (n.y ≤ n.x * n.y * n.z)
      × (n.z ≤ n.x * n.y * n.z)
      × (n.x * n.y ≤ n.x * n.y * n.z)
sizes_bound n p =
    let a : n.x ≤ n.x * n.y = le-mul_of_pos_right n.x p.1 in
    let b : n.y ≤ n.y * n.x = le-mul_of_pos_right n.y p.0 in
    let c : n.x * n.y ≤ n.x * n.y * n.z = le-mul_of_pos_right (n.x * n.y) p.2 in
    let d : n.z ≤ n.z * n.x = le-mul_of_pos_right n.z p.0 in
    let e : n.z * n.x ≤ n.z * n.x * n.y = le-mul_of_pos_right (n.z * n.x) p.1 in
    (omega arith, omega arith, omega arith, c)

InBlock-IsPositive :
    (loc : Location) (n : Size) (i j k : ℕ) → InBlock (extent loc n) i j k → IsPositive n
InBlock-IsPositive vertex n i j k h = (omega arith, omega arith, omega arith)
InBlock-IsPositive cell_center n i j k h = (omega arith, omega arith, omega arith)
InBlock-IsPositive i_face_center n i j k h = (omega arith, omega arith, omega arith)
InBlock-IsPositive j_face_center n i j k h = (omega arith, omega arith, omega arith)
InBlock-IsPositive k_face_center n i j k h = (omega arith, omega arith, omega arith)
InBlock-IsPositive unsupported n i j k h = (omega arith, omega arith, omega arith)

module _ (ints : Integers) (n : Size) (fits : Fits ints n) (positive : IsPositive n) where
  x_fit : ints.minus n.x 1 ≡ n.x - 1
  x_fit = let b = sizes_bound n positive in ints.minus_fits n.x 1 positive.0 (omega arith)

  y_fit : ints.minus n.y 1 ≡ n.y - 1
  y_fit = let b = sizes_bound n positive in ints.minus_fits n.y 1 positive.1 (omega arith)

  z_fit : ints.minus n.z 1 ≡ n.z - 1
  z_fit = let b = sizes_bound n positive in ints.minus_fits n.z 1 positive.2 (omega arith)

  nb_faces_i_fit : ints.times (ints.times n.x (n.y - 1)) (n.z - 1) ≡ n.x * (n.y - 1) * (n.z - 1)
  nb_faces_i_fit =
      let p =
        product_mono n.x (n.y - 1) (n.z - 1) n.x n.y n.z (omega arith) (omega arith)
          (omega arith) in
      let q = product_mono n.x (n.y - 1) 1 n.x n.y n.z (omega arith) (omega arith) positive.2 in
      rw (ints.times_fits n.x (n.y - 1) (omega arith))
        (ints.times_fits (n.x * (n.y - 1)) (n.z - 1) (omega arith))

  nb_faces_j_fit : ints.times (ints.times n.y (n.x - 1)) (n.z - 1) ≡ n.y * (n.x - 1) * (n.z - 1)
  nb_faces_j_fit =
      let p =
        product_mono n.y (n.x - 1) (n.z - 1) n.y n.x n.z (omega arith) (omega arith)
          (omega arith) in
      let q = product_mono n.y (n.x - 1) 1 n.y n.x n.z (omega arith) (omega arith) positive.2 in
      rw (ints.times_fits n.y (n.x - 1) (omega arith))
        (ints.times_fits (n.y * (n.x - 1)) (n.z - 1) (omega arith))

  pub to_exact :
      (loc : Location) (i j k : ℕ)
      → InBlock (extent loc n) i j k
      → ijk_to_index_from_loc ints i j k loc n ≡ Exact.ijk_to_index_from_loc i j k loc n
  unfolding ijk_to_index_from_loc Exact.ijk_to_index_from_loc ijk_to_index Exact.ijk_to_index
      ijk_to_facei_index Exact.ijk_to_facei_index ijk_to_facej_index Exact.ijk_to_facej_index
      ijk_to_facek_index Exact.ijk_to_facek_index
  to_exact vertex i j k h =
      let s = (exact_there_and_back vertex n i j k h refl).1 in
      let b = first_bound vertex n in
      ap ok (
        flat_fits ints i j k n.x n.x n.y (omega arith) (omega arith) (omega arith) (omega arith)
          (omega arith) (omega arith) (omega arith))
  to_exact cell_center i j k h =
      let s = (exact_there_and_back cell_center n i j k h refl).1 in
      let b = first_bound cell_center n in
      rw (x_fit, y_fit)
        (ap ok (
          flat_fits ints i j k (n.x - 1) (n.x - 1) (n.y - 1) (omega arith) (omega arith)
            (omega arith) (omega arith) (omega arith) (omega arith) (omega arith)))
  to_exact i_face_center i j k h =
      let s = (exact_there_and_back i_face_center n i j k h refl).1 in
      let b = first_bound i_face_center n in
      rw y_fit (
        ap ok (
          flat_fits ints i j k n.x n.x (n.y - 1) (omega arith) (omega arith) (omega arith)
            (omega arith) (omega arith) (omega arith) (omega arith)))
  to_exact j_face_center i j k h =
      let s = (exact_there_and_back j_face_center n i j k h refl).1 in
      let b = first_bound j_face_center n in
      rw
        (
          x_fit,
          y_fit,
          z_fit,
          nb_faces_i_fit,
          flat_fits ints i j k (n.x - 1) n.y (n.x - 1) (omega arith) (omega arith) (omega arith)
              (omega arith) (omega arith) (omega arith) (omega arith),
        )
        (ap ok (
          ints.plus_fits (i + (j - 1) * (n.x - 1) + (k - 1) * n.y * (n.x - 1))
            (n.x * (n.y - 1) * (n.z - 1)) (omega arith)))
  to_exact k_face_center i j k h =
      let s = (exact_there_and_back k_face_center n i j k h refl).1 in
      let b = first_bound k_face_center n in
      let flat = i + (j - 1) * (n.x - 1) + (k - 1) * (n.x - 1) * (n.y - 1) in
      rw
        (
          x_fit,
          y_fit,
          z_fit,
          nb_faces_i_fit,
          nb_faces_j_fit,
          flat_fits ints i j k (n.x - 1) (n.x - 1) (n.y - 1) (omega arith) (omega arith)
              (omega arith) (omega arith) (omega arith) (omega arith) (omega arith),
          ints.plus_fits flat (n.x * (n.y - 1) * (n.z - 1)) (omega arith),
        )
        (ap ok (
          ints.plus_fits (flat + n.x * (n.y - 1) * (n.z - 1)) (n.y * (n.x - 1) * (n.z - 1))
            (omega arith)))
  to_exact unsupported i j k h = refl

  back_exact :
      (loc : Location) (idx i j k : ℕ)
      → InBlock (extent loc n) i j k
      → (first loc n < idx) × (idx ≤ first loc n + volume (extent loc n))
      → index_to_ijk_from_loc ints idx loc n ≡ Exact.index_to_ijk_from_loc idx loc n
  unfolding index_to_ijk_from_loc Exact.index_to_ijk_from_loc index_to_ijk Exact.index_to_ijk
      facei_index_to_ijk Exact.facei_index_to_ijk facej_index_to_ijk Exact.facej_index_to_ijk
      facek_index_to_ijk Exact.facek_index_to_ijk
  back_exact vertex idx i j k g h =
      let b = first_bound vertex n in
      let c = sizes_bound n positive in
      let one = one-le-mul positive.0 positive.1 in
      rw (ints.times_fits n.x n.y (omega arith)) (
        ap ok (
          triple_fits ints idx n.x (n.x * n.y) [] (omega arith) (omega arith) positive.0 one
            (omega arith) (omega arith)))
  back_exact cell_center idx i j k g h =
      let b = first_bound cell_center n in
      let c = sizes_bound n positive in
      let x : 1 ≤ n.x - 1 = omega arith in
      let y : 1 ≤ n.y - 1 = omega arith in
      let one = one-le-mul x y in
      let m =
        product_mono (n.x - 1) (n.y - 1) 1 n.x n.y n.z (omega arith) (omega arith) positive.2 in
      rw (x_fit, y_fit, ints.times_fits (n.x - 1) (n.y - 1) (omega arith))
        (ap ok (
          triple_fits ints idx (n.x - 1) ((n.x - 1) * (n.y - 1)) [] (omega arith) (omega arith) x
            one (omega arith) (omega arith)))
  back_exact i_face_center idx i j k g h =
      let b = first_bound i_face_center n in
      let c = sizes_bound n positive in
      let y : 1 ≤ n.y - 1 = omega arith in
      let one = one-le-mul positive.0 y in
      let m = product_mono n.x (n.y - 1) 1 n.x n.y n.z (omega arith) (omega arith) positive.2 in
      rw (y_fit, ints.times_fits n.x (n.y - 1) (omega arith))
        (ap ok (
          triple_fits ints idx n.x (n.x * (n.y - 1)) [] (omega arith) (omega arith) positive.0 one
            (omega arith) (omega arith)))
  back_exact j_face_center idx i j k g h =
      let b = first_bound j_face_center n in
      let c = sizes_bound n positive in
      let x : 1 ≤ n.x - 1 = omega arith in
      let one = one-le-mul positive.1 x in
      let m = product_mono n.y (n.x - 1) 1 n.y n.x n.z (omega arith) (omega arith) positive.2 in
      rw (x_fit, y_fit, z_fit, nb_faces_i_fit, ints.times_fits n.y (n.x - 1) (omega arith))
        (ap ok (
          triple_fits ints idx (n.x - 1) (n.y * (n.x - 1)) (n.x * (n.y - 1) * (n.z - 1) ∷ [])
            (omega arith) (omega arith) x one (omega arith) (omega arith)))
  back_exact k_face_center idx i j k g h =
      let b = first_bound k_face_center n in
      let c = sizes_bound n positive in
      let x : 1 ≤ n.x - 1 = omega arith in
      let y : 1 ≤ n.y - 1 = omega arith in
      let one = one-le-mul x y in
      let m =
        product_mono (n.x - 1) (n.y - 1) 1 n.x n.y n.z (omega arith) (omega arith) positive.2 in
      rw
        (
          x_fit,
          y_fit,
          z_fit,
          nb_faces_i_fit,
          nb_faces_j_fit,
          ints.times_fits (n.x - 1) (n.y - 1) (omega arith),
        )
        (ap ok (
          triple_fits ints idx (n.x - 1) ((n.x - 1) * (n.y - 1))
            (n.x * (n.y - 1) * (n.z - 1) ∷ n.y * (n.x - 1) * (n.z - 1) ∷ []) (omega arith)
            (omega arith) x one (omega arith) (omega arith)))
  back_exact unsupported idx i j k g h = refl

answered :
    (ints : Integers) (loc : Location) (idx : ℕ) (n : Size)
    → ((t : Ijk) × (Exact.index_to_ijk_from_loc idx loc n ≡ ok t))
      ⊎ (index_to_ijk_from_loc ints idx loc n ≡ raised value_error)
unfolding index_to_ijk_from_loc Exact.index_to_ijk_from_loc
answered ints vertex idx n = inl (_, refl)
answered ints cell_center idx n = inl (_, refl)
answered ints i_face_center idx n = inl (_, refl)
answered ints j_face_center idx n = inl (_, refl)
answered ints k_face_center idx n = inl (_, refl)
answered ints unsupported idx n = inr refl

-- Where three times the number of vertices fits in the integers of the sizes, the index of an entity of
-- the block lies among those of its kind, which follow one another, and leads back to the entity.
pub index_to_ijk_from_loc-ijk_to_index_from_loc :
    (ints : Integers) (loc : Location) (n : Size) (i j k : ℕ) {idx : ℕ}
    → Fits ints n
    → InBlock (extent loc n) i j k
    → ijk_to_index_from_loc ints i j k loc n ≡ ok idx
    → (first loc n < idx)
      × (idx ≤ first loc n + volume (extent loc n))
      × (index_to_ijk_from_loc ints idx loc n ≡ ok (i, j, k))
index_to_ijk_from_loc-ijk_to_index_from_loc ints loc n i j k {idx = idx} fits h e =
    let p = InBlock-IsPositive loc n i j k h in
    let r = exact_there_and_back loc n i j k h (sym (to_exact ints n fits p loc i j k h) ∙ e) in
    (r.0, r.1, back_exact ints n fits p loc idx i j k h (r.0, r.1) ∙ r.2)

-- Where three times the number of vertices fits, every index of that range is the index of an entity
-- of the block, if the block has entities of the kind of the location.
pub ijk_to_index_from_loc-index_to_ijk_from_loc :
    (ints : Integers) (loc : Location) (n : Size) (idx i j k : ℕ)
    → Fits ints n
    → (first loc n < idx) × (idx ≤ first loc n + volume (extent loc n))
    → index_to_ijk_from_loc ints idx loc n ≡ ok (i, j, k)
    → InBlock (extent loc n) i j k × (ijk_to_index_from_loc ints i j k loc n ≡ ok idx)
ijk_to_index_from_loc-index_to_ijk_from_loc ints loc n idx i j k fits h e =
    elim (answered ints loc idx n) [
      | inl (t, q) ↦
          let (g, u) = exact_back_and_there loc n idx t.0 t.1 t.2 h q in
          let p = InBlock-IsPositive loc n t.0 t.1 t.2 g in
          let b = back_exact ints n fits p loc idx t.0 t.1 t.2 g h in
          let r = exact_back_and_there loc n idx i j k h (sym b ∙ e) in
          (r.0, to_exact ints n fits p loc i j k r.0 ∙ r.1)
      | inr q ↦ absurd (cc)
    ]
