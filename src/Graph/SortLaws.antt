-- ===== src/Graph/SortLaws.antt =====
-- The order on names, and lists of nodes sorted by it.
use maia.Base.{
  ◌≡◌, refl, ap, ◌∙◌, List, [], ◌∷◌, Bool, true, false, Text, text_eq, text_eq_comm, text_mem, map,
  arith,
}
use maia.Pytree.Node.{Node, get_name}
use maia.Pytree.Access.Laws.{distinct_names}
use maia.Graph.Zip.{text_lt, insert, sorted, less_by_name, node_lt}

pub text_lt_irrefl : (s : Text) → text_lt s s ≡ false
unfolding text_lt
text_lt_irrefl [] = refl
text_lt_irrefl (x ∷ s) = ground (arith, text_lt_irrefl s)

text_lt_asym : (s t : Text) → text_lt s t ≡ true → text_lt t s ≡ false
unfolding text_lt
text_lt_asym [] [] h = refl
text_lt_asym [] (y ∷ t) h = refl
text_lt_asym (x ∷ s) [] h = cc
text_lt_asym (x ∷ s) (y ∷ t) h = ground (arith, text_lt_asym s t)

text_lt_total : (s t : Text) → text_eq s t ≡ false → text_lt s t ≡ false → text_lt t s ≡ true
unfolding text_lt text_eq
text_lt_total [] [] e h = cc
text_lt_total [] (y ∷ t) e h = cc
text_lt_total (x ∷ s) [] e h = refl
text_lt_total (x ∷ s) (y ∷ t) e h = ground (arith, text_lt_total s t)

text_lt_trans : (r s t : Text) → text_lt r s ≡ true → text_lt s t ≡ true → text_lt r t ≡ true
unfolding text_lt
text_lt_trans [] [] t h k = cc
text_lt_trans [] (y ∷ s) [] h k = cc
text_lt_trans [] (y ∷ s) (z ∷ t) h k = refl
text_lt_trans (x ∷ r) [] t h k = cc
text_lt_trans (x ∷ r) (y ∷ s) [] h k = cc
text_lt_trans (x ∷ r) (y ∷ s) (z ∷ t) h k = ground (arith, text_lt_trans r s t)

module _ {V : Type 0} where
  abbrev pub names : List (Node V) → List Text
  names ns = map get_name ns

  text_mem-insert :
      (t : Text) (a : Node V) (l : List (Node V))
      → text_mem t (names (insert less_by_name a l)) ≡ text_mem t (get_name a ∷ names l)
  unfolding insert
  text_mem-insert t a [] = refl
  text_mem-insert t a (b ∷ l) = ground (arith, text_mem-insert t a l)

  pub text_mem-sorted :
      (t : Text) (l : List (Node V))
      → text_mem t (names (sorted less_by_name l)) ≡ text_mem t (names l)
  unfolding sorted
  text_mem-sorted t [] = refl
  text_mem-sorted t (a ∷ l) =
      text_mem-insert t a (sorted less_by_name l) ∙ rw (text_mem-sorted t l) refl

  -- Insertion of a node whose name is new depends on the names only.
  insert-node_lt :
      (rest : Node V → Node V → Bool) (a : Node V) (l : List (Node V))
      → text_mem (get_name a) (names l) ≡ false
      → insert (node_lt rest) a l ≡ insert less_by_name a l
  unfolding insert node_lt
  insert-node_lt rest a [] h = refl
  insert-node_lt rest a (b ∷ l) h =
      ground (arith, insert-node_lt rest a l, text_eq_comm (get_name a) (get_name b))

  pub sorted-node_lt :
      (rest : Node V → Node V → Bool) (l : List (Node V))
      → distinct_names l ≡ true
      → sorted (node_lt rest) l ≡ sorted less_by_name l
  unfolding sorted
  sorted-node_lt rest [] h = refl
  sorted-node_lt rest (a ∷ l) h =
      ap (insert (node_lt rest) a) (sorted-node_lt rest l (ground arith))
      ∙ insert-node_lt rest a (sorted less_by_name l)
          (text_mem-sorted (get_name a) l ∙ (ground arith))

  pub insert_comm :
      (a b : Node V) (l : List (Node V))
      → text_eq (get_name a) (get_name b) ≡ false
      → insert less_by_name a (insert less_by_name b l)
        ≡ insert less_by_name b (insert less_by_name a l)
  unfolding insert less_by_name
  insert_comm a b [] h =
      ground
        (arith, text_lt_asym (get_name a) (get_name b), text_lt_total (get_name a) (get_name b))
  insert_comm a b (x ∷ l) h = ground (
    arith,
    insert_comm a b l h,
    text_lt_asym (get_name a) (get_name b),
    text_lt_total (get_name a) (get_name b),
    text_lt_trans (get_name x) (get_name a) (get_name b),
    text_lt_trans (get_name x) (get_name b) (get_name a),
  )
