-- ===== src/Utils/SplitLaws.antt =====
-- `set_intersection_difference` loses and invents no item.
use maia.Base.{
  ℕ, zero, suc, ◌+◌, ◌≤◌, ◌≡◌, List, [], ◌∷◌, ◌++◌, Bool, if◌then◌else◌, length, arith, Bool-cases,
  inl, inr,
}
use maia.Utils.Sequences.{Split, split_step, split_loop, set_intersection_difference}

module _ {A : Type 0} (q : A → Bool) where
  -- How many items satisfy a test.
  unfoldable pub tally : List A → ℕ
  tally [] = 0
  tally (x ∷ xs) = (if q x then 1 else 0) + tally xs

  tally-append : (xs ys : List A) → tally (xs ++ ys) ≡ tally xs + tally ys
  unfolding tally
  tally-append [] ys = omega arith
  tally-append (x ∷ xs) ys = omega (arith, tally-append xs ys)

  module _ (comp : A → A → Bool) where
    -- The items of `x` and of `y` are in the lists of `r`, after those of `s`.
    abbrev Keeps : List A → List A → Split A → Split A → Type 0
    Keeps x y s r =
        (tally r.inter_x + tally r.diff_x ≡ tally s.inter_x + tally s.diff_x + tally x)
        × (tally r.inter_y + tally r.diff_y ≡ tally s.inter_y + tally s.diff_y + tally y)

    split_loop-Keeps :
        (fuel : ℕ) (x y : List A) (s : Split A)
        → length x + length y ≤ fuel
        → Keeps x y s (split_loop comp fuel x y s)
    unfolding split_loop split_step tally
    split_loop-Keeps fuel [] y s h = let e = tally-append s.diff_y y in (omega arith, omega arith)
    split_loop-Keeps fuel (a ∷ x) [] s h =
        let e = tally-append s.diff_x (a ∷ x) in (omega arith, omega arith)
    split_loop-Keeps zero (a ∷ x) (b ∷ y) s h = (omega arith, omega arith)
    split_loop-Keeps (suc fuel) (a ∷ x) (b ∷ y) s h = elim (Bool-cases (comp a b)) [
      | inl e ↦
          let e₁ = tally-append s.diff_x (a ∷ []) in
          let (i, j) =
            split_loop-Keeps fuel x (b ∷ y) (record s { diff_x = s.diff_x ++ (a ∷ []) })
              (omega arith) in
          rw (split_loop, split_step, e) (omega arith, omega arith)
      | inr e ↦ elim (Bool-cases (comp b a)) [
        | inl k ↦
            let e₁ = tally-append s.diff_y (b ∷ []) in
            let (i, j) =
              split_loop-Keeps fuel (a ∷ x) y (record s { diff_y = s.diff_y ++ (b ∷ []) })
                (omega arith) in
            rw (split_loop, split_step, e, k) (omega arith, omega arith)
        | inr k ↦
            let e₁ = tally-append s.inter_x (a ∷ []) in
            let e₂ = tally-append s.inter_y (b ∷ []) in
            let (i, j) =
              split_loop-Keeps fuel x y
                (record s { inter_x = s.inter_x ++ (a ∷ []); inter_y = s.inter_y ++ (b ∷ []) })
                (omega arith) in
            rw (split_loop, split_step, e, k) (omega arith, omega arith)
      ]
    ]

    -- Whatever the order, for every test as many items of `x` satisfy it as of the two lists for
    -- `x` together, and the same for `y`: the four lists hold the items of `x` and `y`.
    set_intersection_difference-tally :
        (x y : List A)
        → let r = set_intersection_difference comp x y in
          (tally r.inter_x + tally r.diff_x ≡ tally x)
          × (tally r.inter_y + tally r.diff_y ≡ tally y)
    unfolding set_intersection_difference tally
    set_intersection_difference-tally x y =
        let (i, j) =
          split_loop-Keeps (length x + length y) x y
            (record { inter_x = []; diff_x = []; inter_y = []; diff_y = [] }) (omega arith) in
        (omega arith, omega arith)
