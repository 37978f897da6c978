-- ===== src/Graph/Reorder.antt =====
-- Trees that differ in the order of children only, and the tree that a search through both sees.
use maia.Base.{◌≡◌, refl, ap, ◌∙◌, ◌∷◌, true, false, Option, Text, text_eq_comm, text_mem, arith}
use maia.Pytree.Node.{Node, node, Children, nil, cons, get_name, to_list}
use maia.Pytree.Access.Laws.{distinct_names}
use maia.Graph.Zip.{insert, sorted, less_by_name}
use maia.Graph.SortLaws.{names, insert_comm}

module _ {V : Type 0} where
  -- The second list of children is the first with this node put in somewhere.
  pub data Inserted (d : Node V) : Children V → Children V → Type 0 where
    here : {ds : Children V} → Inserted d ds (cons d ds)
    there :
        {e : Node V} {ds es : Children V} → Inserted d ds es → Inserted d (cons e ds) (cons e es)

  -- Two trees with the same nodes, the children of a node in any order under distinct names.
  mutual
    pub data Reordered : Node V → Node V → Type 0 where
      reordered :
          (n : Text) (v : Option V) (l : Text) {cs ds : Children V}
          → Permuted cs ds
          → Reordered (node n v cs l) (node n v ds l)

    pub data Permuted : Children V → Children V → Type 0 where
      empty : Permuted nil nil
      put :
          {c d : Node V} {cs ds es : Children V}
          → Reordered c d
          → Permuted cs ds
          → Inserted d ds es
          → text_mem (get_name c) (names (to_list cs)) ≡ false
          → text_mem (get_name d) (names (to_list ds)) ≡ false
          → Permuted (cons c cs) es

  text_mem-Inserted :
      {d : Node V} {ds es : Children V} (t : Text)
      → Inserted d ds es
      → text_mem t (names (to_list es)) ≡ text_mem t (get_name d ∷ names (to_list ds))
  text_mem-Inserted t here = refl
  text_mem-Inserted {d} t (there {e} {ds} {es} i) = ground (arith, text_mem-Inserted t i)

  pub distinct_names-Inserted :
      {d : Node V} {ds es : Children V}
      → Inserted d ds es
      → text_mem (get_name d) (names (to_list ds)) ≡ false
      → distinct_names (to_list ds) ≡ true
      → distinct_names (to_list es) ≡ true
  distinct_names-Inserted here h k = rw (h, k) refl
  distinct_names-Inserted {d} (there {e} {ds} {es} i) h k = ground (
    arith,
    distinct_names-Inserted i,
    text_mem-Inserted (get_name e) i,
    text_eq_comm (get_name d) (get_name e),
  )

  pub sorted-Inserted :
      {d : Node V} {ds es : Children V}
      → Inserted d ds es
      → text_mem (get_name d) (names (to_list ds)) ≡ false
      → sorted less_by_name (to_list es) ≡ insert less_by_name d (sorted less_by_name (to_list ds))
  unfolding sorted
  sorted-Inserted here h = refl
  sorted-Inserted {d} (there {e} {ds} {es} i) h =
      ap (insert less_by_name e) (sorted-Inserted i (ground arith))
      ∙ insert_comm e d (sorted less_by_name (to_list ds))
          (ground (arith, text_eq_comm (get_name d) (get_name e)))
