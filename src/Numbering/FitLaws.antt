-- ===== src/Numbering/FitLaws.antt =====
-- Sums, products and quotients of indices in integers that are wide enough for them.
use native.Mathlib.Nat.{le-mul_of_pos_right, div-mul-le_self}
use maia.Base.{ℕ, ◌+◌, ◌-◌, ◌*◌, ◌/◌, ◌≤◌, ◌<◌, ◌≡◌, refl, ap, ◌∙◌, List, [], ◌∷◌, arith}
use maia.Numbering.Block.{Integers, Ijk}
use maia.Utils.Lists.{sum}

-- What is subtracted one after the other.
abbrev cut : ℕ → List ℕ → ℕ
cut x [] = x
cut x (f ∷ fs) = cut (x - f) fs

cut-sum : (x : ℕ) (fs : List ℕ) → cut x fs ≡ x - sum fs
cut-sum x [] = omega arith
cut-sum x (f ∷ fs) = cut-sum (x - f) fs ∙ omega arith

module _ (ints : Integers) where
  abbrev less : ℕ → List ℕ → ℕ
  less x [] = x
  less x (f ∷ fs) = less (ints.minus x f) fs

  less_fits : (x : ℕ) (fs : List ℕ) → sum fs ≤ x → x < ints.bound → less x fs ≡ cut x fs
  less_fits x [] h b = refl
  less_fits x (f ∷ fs) h b =
      rw (ints.minus_fits x f (omega arith) b) (less_fits (x - f) fs (omega arith) (omega arith))

  pub flat_fits :
      (i j k a b c : ℕ)
      → 1 ≤ i
      → 1 ≤ j
      → 1 ≤ k
      → 1 ≤ a
      → 1 ≤ b
      → 1 ≤ c
      → i + (j - 1) * a + (k - 1) * b * c < ints.bound
      → ints.plus
          (ints.plus i (ints.times (ints.minus j 1) a))
          (ints.times (ints.times (ints.minus k 1) b) c)
        ≡ i + (j - 1) * a + (k - 1) * b * c
  flat_fits i j k a b c hi hj hk ha hb hc h =
      let u : j - 1 ≤ (j - 1) * a = le-mul_of_pos_right (j - 1) ha in
      let v : k - 1 ≤ (k - 1) * b = le-mul_of_pos_right (k - 1) hb in
      let w : (k - 1) * b ≤ (k - 1) * b * c = le-mul_of_pos_right ((k - 1) * b) hc in
      rw
        (
          ints.minus_fits j 1 hj (omega arith),
          ints.minus_fits k 1 hk (omega arith),
          ints.times_fits (j - 1) a (omega arith),
          ints.times_fits (k - 1) b (omega arith),
          ints.times_fits ((k - 1) * b) c (omega arith),
          ints.plus_fits i ((j - 1) * a) (omega arith),
        )
        (ints.plus_fits (i + (j - 1) * a) ((k - 1) * b * c) h)

  module _ (idx a plane : ℕ) (fs : List ℕ) (low : sum fs < idx) (high : idx < ints.bound)
      (ha : 1 ≤ a) (hp : 1 ≤ plane) (ba : a < ints.bound) (bp : plane < ints.bound) where
    k_fits :
        ints.plus (ints.over (less (ints.minus idx 1) fs) plane) 1 ≡ cut (idx - 1) fs / plane + 1
    k_fits =
        let c = cut-sum (idx - 1) fs in
        let d = div-mul-le_self (cut (idx - 1) fs) plane in
        let q : cut (idx - 1) fs / plane ≤ cut (idx - 1) fs / plane * plane =
          le-mul_of_pos_right (cut (idx - 1) fs / plane) hp in
        rw
          (
            ints.minus_fits idx 1 (omega arith) high,
            less_fits (idx - 1) fs (omega arith) (omega arith),
            ints.over_fits (cut (idx - 1) fs) plane hp (omega arith) bp,
          )
          (ints.plus_fits (cut (idx - 1) fs / plane) 1 (omega arith))

    module _ (k : ℕ) (below : (k - 1) * plane ≤ idx - 1 - sum fs) (hk : 1 ≤ k) where
      smaller : k - 1 ≤ (k - 1) * plane
      smaller = le-mul_of_pos_right (k - 1) hp

      j_fits :
          ints.plus
            (ints.over
              (less (ints.minus (ints.minus idx (ints.times (ints.minus k 1) plane)) 1) fs)
              a)
            1
          ≡ cut (idx - (k - 1) * plane - 1) fs / a + 1
      j_fits =
          let x = idx - (k - 1) * plane - 1 in
          let s = smaller in
          let c = cut-sum x fs in
          let d = div-mul-le_self (cut x fs) a in
          let q : cut x fs / a ≤ cut x fs / a * a = le-mul_of_pos_right (cut x fs / a) ha in
          rw
            (
              ints.minus_fits k 1 hk (omega arith),
              ints.times_fits (k - 1) plane (omega arith),
              ints.minus_fits idx ((k - 1) * plane) (omega arith) high,
              ints.minus_fits (idx - (k - 1) * plane) 1 (omega arith) (omega arith),
              less_fits x fs (omega arith) (omega arith),
              ints.over_fits (cut x fs) a ha (omega arith) ba,
            )
            (ints.plus_fits (cut x fs / a) 1 (omega arith))

      i_fits :
          (j : ℕ)
          → 1 ≤ j
          → (j - 1) * a ≤ idx - (k - 1) * plane - 1 - sum fs
          → less
              (ints.minus
                (ints.minus idx (ints.times (ints.minus j 1) a))
                (ints.times (ints.minus k 1) plane))
              fs
            ≡ cut (idx - (j - 1) * a - (k - 1) * plane) fs
      i_fits j hj h =
          let s = smaller in
          let r : j - 1 ≤ (j - 1) * a = le-mul_of_pos_right (j - 1) ha in
          rw
            (
              ints.minus_fits k 1 hk (omega arith),
              ints.minus_fits j 1 hj (omega arith),
              ints.times_fits (k - 1) plane (omega arith),
              ints.times_fits (j - 1) a (omega arith),
              ints.minus_fits idx ((j - 1) * a) (omega arith) high,
              ints.minus_fits (idx - (j - 1) * a) ((k - 1) * plane) (omega arith) (omega arith),
            )
            (less_fits (idx - (j - 1) * a - (k - 1) * plane) fs (omega arith) (omega arith))

    abbrev machine_k : ℕ
    machine_k = ints.plus (ints.over (less (ints.minus idx 1) fs) plane) 1

    abbrev machine_j : ℕ → ℕ
    machine_j k =
        ints.plus
          (ints.over (less (ints.minus (ints.minus idx (ints.times (ints.minus k 1) plane)) 1) fs)
            a)
          1

    abbrev machine_i : ℕ → ℕ → ℕ
    machine_i j k =
        less
          (ints.minus (ints.minus idx (ints.times (ints.minus j 1) a))
            (ints.times (ints.minus k 1) plane))
          fs

    abbrev exact_k : ℕ
    exact_k = cut (idx - 1) fs / plane + 1

    abbrev exact_j : ℕ
    exact_j = cut (idx - (exact_k - 1) * plane - 1) fs / a + 1

    abbrev machine_ijk : Ijk
    machine_ijk = (machine_i (machine_j machine_k) machine_k, machine_j machine_k, machine_k)

    abbrev exact_ijk : Ijk
    exact_ijk = (cut (idx - (exact_j - 1) * a - (exact_k - 1) * plane) fs, exact_j, exact_k)

    pub triple_fits : machine_ijk ≡ exact_ijk
    triple_fits =
        let c = cut-sum (idx - 1) fs in
        let d = div-mul-le_self (cut (idx - 1) fs) plane in
        let e : exact_k - 1 ≡ cut (idx - 1) fs / plane = omega arith in
        let p = ap (λ m. m * plane) e in
        let c' = cut-sum (idx - (exact_k - 1) * plane - 1) fs in
        let d' = div-mul-le_self (cut (idx - (exact_k - 1) * plane - 1) fs) a in
        let e' : exact_j - 1 ≡ cut (idx - (exact_k - 1) * plane - 1) fs / a = omega arith in
        let p' = ap (λ m. m * a) e' in
        rw
          (
            k_fits,
            j_fits exact_k (omega arith) (omega arith),
            i_fits exact_k (omega arith) (omega arith) exact_j (omega arith) (omega arith),
          )
          refl
