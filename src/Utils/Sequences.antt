-- ===== src/Utils/Sequences.antt =====
-- `maia/pytree/algo_utils.py`: searches and splits of sequences. A sequence is a list, and the
-- equality and the order of its items are parameters.
use maia.Base.{
  ℕ, zero, suc, ◌+◌, ltb, ◌==◌, List, [], ◌∷◌, ◌++◌, Bool, false, not, if◌then◌else◌, length,
}

module _ {A : Type 0} where
  -- `find` with a callable: the index of the first item that satisfies it, or the length.
  unfoldable pub find : List A → (A → Bool) → ℕ
  find [] pred = 0
  find (x ∷ seq) pred = if pred x then 0 else suc (find seq pred)

  unfoldable pub find_not : List A → (A → Bool) → ℕ
  unfolding find
  find_not seq pred = find seq (λ x. not (pred x))

  -- `mismatch`, where `zip` stops at the shorter sequence.
  unfoldable pub mismatch : (A → A → Bool) → List A → List A → ℕ
  mismatch eq [] ys = 0
  mismatch eq (x ∷ xs) [] = 0
  mismatch eq (x ∷ xs) (y ∷ ys) = if eq x y then suc (mismatch eq xs ys) else 0

  unfoldable pub begins_with : (A → A → Bool) → List A → List A → Bool
  unfolding mismatch
  begins_with eq seq seq_begin =
      if ltb (length seq) (length seq_begin)
      then false
      else mismatch eq seq seq_begin == length seq_begin

  -- The loop of `partition_copy`, on the two lists so far.
  unfoldable pub partition_loop : List A → (A → Bool) → List A → List A → List A × List A
  partition_loop [] pred xs_true xs_false = (xs_true, xs_false)
  partition_loop (x ∷ xs) pred xs_true xs_false =
      if pred x
      then partition_loop xs pred (xs_true ++ (x ∷ [])) xs_false
      else partition_loop xs pred xs_true (xs_false ++ (x ∷ []))

  unfoldable pub partition_copy : List A → (A → Bool) → List A × List A
  unfolding partition_loop
  partition_copy xs pred = partition_loop xs pred [] []

-- The four lists of `set_intersection_difference`.
pub record Split (A : Type 0) : Type 0 where
  pub inter_x : List A
  pub diff_x : List A
  pub inter_y : List A
  pub diff_y : List A

module _ {A : Type 0} (comp : A → A → Bool) where
  -- One turn of the loop: what is left of `x` and of `y`, and the lists so far.
  unfoldable pub split_step : A → List A → A → List A → Split A → List A × List A × Split A
  split_step a x b y s =
      if comp a b
      then (x, b ∷ y, record s { diff_x = s.diff_x ++ (a ∷ []) })
      else if comp b a
      then (a ∷ x, y, record s { diff_y = s.diff_y ++ (b ∷ []) })
      else (x, y, record s { inter_x = s.inter_x ++ (a ∷ []); inter_y = s.inter_y ++ (b ∷ []) })

  -- The loop, on fuel, and the two lines after it.
  unfoldable pub split_loop : ℕ → List A → List A → Split A → Split A
  unfolding split_step
  split_loop fuel [] y s = record s { diff_y = s.diff_y ++ y }
  split_loop fuel (a ∷ x) [] s = record s { diff_x = s.diff_x ++ (a ∷ x) }
  split_loop zero (a ∷ x) (b ∷ y) s = s
  split_loop (suc fuel) (a ∷ x) (b ∷ y) s =
      let (x', y', s') = split_step a x b y s in split_loop fuel x' y' s'

  unfoldable pub set_intersection_difference : List A → List A → Split A
  unfolding split_loop
  set_intersection_difference x y =
      split_loop (length x + length y) x y
        (record { inter_x = []; diff_x = []; inter_y = []; diff_y = [] })
