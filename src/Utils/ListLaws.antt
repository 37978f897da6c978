-- ===== src/Utils/ListLaws.antt =====
-- Nesting and buckets lose nothing, and `are_overlapping` tells whether intervals meet.
use maia.Base.{
  ℕ, zero, suc, ◌+◌, ◌-◌, ◌≤◌, ◌==◌, ◌≡◌, ◌↔◌, refl, ap, ◌∙◌, List, [], ◌∷◌, true, false, length,
  take, drop, concat, map, max, take-append-drop, arith, ==_iff,
}
use maia.Base.Result.{ok, raised, assertion_error}
use maia.Utils.Lists.{sum, slices, to_nested_list, to_flat_list, are_overlapping}

==_false : (a b : ℕ) → ¬ (a ≡ b) → (a == b) ≡ false
==_false a b h = ground arith

module _ {A : Type 0} where
  drop-nil : (n : ℕ) → drop {A = A} n [] ≡ []
  drop-nil zero = refl
  drop-nil (suc n) = refl

  drop-length : (l : List A) → drop (length l) l ≡ []
  drop-length [] = refl
  drop-length (x ∷ l) = drop-length l

  drop-drop : (i n : ℕ) (l : List A) → drop n (drop i l) ≡ drop (i + n) l
  drop-drop zero n l = ap (λ k. drop k l) (omega arith)
  drop-drop (suc i) n [] =
      let e : suc (i + n) ≡ suc i + n = omega arith in drop-nil n ∙ ap (λ k. drop k []) e
  drop-drop (suc i) n (x ∷ l) =
      let e : suc (i + n) ≡ suc i + n = omega arith in drop-drop i n l ∙ ap (λ k. drop k (x ∷ l)) e

  concat-slices :
      (l : List A) (counts : List ℕ) (i : ℕ)
      → length l ≡ i + sum counts
      → concat (slices l counts i) ≡ drop i l
  unfolding slices
  concat-slices l [] i h = let e : i ≡ length l = omega arith in rw (e, drop-length l) refl
  concat-slices l (n ∷ counts) i h =
      rw (concat-slices l counts (i + n) (omega arith), ← drop-drop i n l)
        (take-append-drop n (drop i l))

  pub length-take : (n : ℕ) (l : List A) → n ≤ length l → length (take n l) ≡ n
  length-take zero l h = refl
  length-take (suc n) [] h = omega arith
  length-take (suc n) (x ∷ l) h = ap suc (length-take n l (omega arith))

  pub length-drop : (i : ℕ) (l : List A) → length (drop i l) ≡ length l - i
  length-drop zero l = omega arith
  length-drop (suc i) [] = omega arith
  length-drop (suc i) (x ∷ l) = let e = length-drop i l in omega arith

  lengths-slices :
      (l : List A) (counts : List ℕ) (i : ℕ)
      → length l ≡ i + sum counts
      → map length (slices l counts i) ≡ counts
  unfolding slices
  lengths-slices l [] i h = refl
  lengths-slices l (n ∷ counts) i h =
      let e = length-drop i l in
      rw (lengths-slices l counts (i + n) (omega arith), length-take n (drop i l) (omega arith))
        refl

  -- A list as long as the sum of the counts is nested: the parts have the counts as lengths, and
  -- flattening them gives the list back. A list of another length is refused.
  to_nested_list_lem :
      (l : List A) (counts : List ℕ)
      → (length l ≡ sum counts
          → (nested : List (List A)) × (to_nested_list l counts ≡ ok nested)
            × (to_flat_list nested ≡ l)
            × (map length nested ≡ counts))
        × (¬ (length l ≡ sum counts) → to_nested_list l counts ≡ raised assertion_error)
  unfolding to_nested_list to_flat_list
  to_nested_list_lem l counts = (
    λ h. (
      slices l counts 0,
      rw ((==_iff (length l) (sum counts)).1 h) refl,
      concat-slices l counts 0 (omega arith),
      lengths-slices l counts 0 (omega arith),
    ),
    λ h. rw (==_false (length l) (sum counts) h) refl,
  )

overlap_tests :
    (s₁ e₁ s₂ e₂ : ℕ)
    → s₁ ≤ e₁
    → s₂ ≤ e₂
    → are_overlapping (s₁, e₁) (s₂, e₂) false ≡ ok true
    → (s₁ ≤ e₂) × (s₂ ≤ e₁)
unfolding are_overlapping
overlap_tests s₁ e₁ s₂ e₂ h₁ h₂ e = ground arith

-- Two closed intervals are said to overlap exactly if an element is in both of them.
are_overlapping_lem :
    (s₁ e₁ s₂ e₂ : ℕ)
    → s₁ ≤ e₁
    → s₂ ≤ e₂
    → (are_overlapping (s₁, e₁) (s₂, e₂) false ≡ ok true)
      ↔ ((x : ℕ) × (s₁ ≤ x) × (x ≤ e₁) × (s₂ ≤ x) × (x ≤ e₂))
unfolding are_overlapping
are_overlapping_lem s₁ e₁ s₂ e₂ h₁ h₂ = (
  λ e.
      let (low, high) = overlap_tests s₁ e₁ s₂ e₂ h₁ h₂ e in
      (max s₁ s₂, omega arith, omega arith, omega arith, omega arith),
  λ (x, a, b, c, d). ground arith,
)
