-- ===== src/Utils/SequenceLaws.antt =====
-- The functions on sequences find, compare and split what they promise.
use maia.Base.{
  ℕ, suc, ◌≤◌, ltb, ◌==◌, ◌≡◌, ◌↔◌, refl, ap, ◌∙◌, ◌⊎◌, inl, inr, List, [], ◌∷◌, ◌++◌, Bool, true,
  false, not, if◌then◌else◌, length, take, filter, get_elem?, some, append-nil, append_assoc,
  length-append, arith, Bool-cases,
}
use maia.Utils.Sequences.{find, mismatch, begins_with, partition_loop, partition_copy}

module _ {A : Type 0} (pred : A → Bool) where
  -- `find` returns the length of a sequence in which no item satisfies the predicate, and otherwise
  -- the index of an item that does, with none before it.
  find_lem :
      (seq : List A)
      → ((find seq pred ≡ length seq) × (filter pred seq ≡ []))
        ⊎ ((x : A) × (get_elem? seq (find seq pred) ≡ some x)
            × (pred x ≡ true)
            × (filter pred (take (find seq pred) seq) ≡ []))
  unfolding find
  find_lem [] = inl (refl, refl)
  find_lem (x ∷ seq) = elim (Bool-cases (pred x)) [
    | inl h ↦ inr (x, rw h refl, h, rw h refl)
    | inr h ↦ elim (find_lem seq) [
      | inl (a, b) ↦ inl (simp (h, a) refl, simp (h, b) refl)
      | inr (y, a, b, c) ↦ inr (y, simp (h, a) refl, b, simp (h, c) refl)
    ]
  ]

  partition_loop-filter :
      (xs xs_true xs_false : List A)
      → partition_loop xs pred xs_true xs_false
        ≡ (xs_true ++ filter pred xs, xs_false ++ filter (λ x. not (pred x)) xs)
  unfolding partition_loop
  partition_loop-filter [] ts fs = simp append-nil refl
  partition_loop-filter (x ∷ xs) ts fs = elim (Bool-cases (pred x)) [
    | inl h ↦ rw h (rw (partition_loop-filter xs (ts ++ (x ∷ [])) fs) (rw append_assoc refl))
    | inr h ↦ rw h (rw (partition_loop-filter xs ts (fs ++ (x ∷ []))) (rw append_assoc refl))
  ]

  -- `partition_copy` gives the items that satisfy the predicate and those that do not, both in the
  -- order of the sequence.
  partition_copy-filter :
      (xs : List A) → partition_copy xs pred ≡ (filter pred xs, filter (λ x. not (pred x)) xs)
  unfolding partition_copy
  partition_copy-filter xs = partition_loop-filter xs [] []

prefix_tests : (m n k : ℕ) → n ≤ m → k ≡ n → (if ltb m n then false else (k == n)) ≡ true
prefix_tests m n k h e = ground arith

module _ {A : Type 0} (eq : A → A → Bool) (eq_iff : (x y : A) → (eq x y ≡ true) ↔ (x ≡ y)) where
  mismatch-prefix :
      (seq b : List A) → mismatch eq seq b ≡ length b → (rest : List A) × (seq ≡ b ++ rest)
  unfolding mismatch
  mismatch-prefix seq [] h = (seq, refl)
  mismatch-prefix [] (y ∷ b) h = ground arith
  mismatch-prefix (x ∷ seq) (y ∷ b) h = elim (Bool-cases (eq x y)) [
    | inl e ↦
        let k : suc (mismatch eq seq b) ≡ suc (length b) = rw e at h in
        let (rest, q) = mismatch-prefix seq b (omega arith) in
        (rest, ap (λ a. a ∷ seq) ((eq_iff x y).0 e) ∙ ap (λ l. y ∷ l) q)
    | inr e ↦ let k : 0 ≡ suc (length b) = rw e at h in ground arith
  ]

  mismatch-append : (b rest : List A) → mismatch eq (b ++ rest) b ≡ length b
  unfolding mismatch
  mismatch-append [] [] = refl
  mismatch-append [] (x ∷ rest) = refl
  mismatch-append (y ∷ b) rest = rw ((eq_iff y y).1 refl) (ap suc (mismatch-append b rest))

  -- Where `eq` decides equality, `begins_with` says exactly whether the second sequence is a prefix
  -- of the first.
  begins_with-prefix :
      (seq b : List A) → (begins_with eq seq b ≡ true) ↔ ((rest : List A) × (seq ≡ b ++ rest))
  unfolding begins_with
  begins_with-prefix seq b = (
    λ h. mismatch-prefix seq b (ground arith),
    λ (rest, e).
        let k = length-append b rest in
        let m = mismatch-append b rest in
        rw e (
          prefix_tests (length (b ++ rest)) (length b) (mismatch eq (b ++ rest) b) (omega arith) m),
  )
