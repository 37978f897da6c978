-- ===== src/Graph/Zipped.antt =====
-- The tree that a search through two reordered trees sees.
use mathlib.Core.Path.{ap₂}
use maia.Base.{
  ℕ, zero, suc, ◌≤◌, ◌+◌, ◌≡◌, refl, ap, sym, ◌∙◌, List, [], ◌∷◌, ◌++◌, true, none, some,
  if◌then◌else◌, Text, length, append-nil, append_assoc, Bool-cases, inl, inr, arith,
}
use maia.Pytree.Node.{Node, node, Children, get_name, to_list}
use maia.Pytree.Access.Laws.{distinct_names}
use maia.Utils.Sequences.{Split, split_loop, split_step, set_intersection_difference}
use maia.Graph.Traversal.{Rose, rose, Roses, top, tops, turns, turns_each}
use maia.Graph.Zip.{text_lt, insert, sorted, less_by_name, Pair, both, zip_lists}
use maia.Graph.SortLaws.{text_lt_irrefl}
use maia.Graph.Reorder.{
  Reordered, reordered, Permuted, empty, put, distinct_names-Inserted, sorted-Inserted,
}

module _ {V : Type 0} where
  -- A property of each of the trees.
  abbrev pub Each : (Rose (Pair V) → Type 0) → Roses (Pair V) → Type 0
  Each P Roses.nil = Unit
  Each P (Roses.cons r rs) = P r × Each P rs

  -- The name of the first node at a place.
  abbrev name_of : Pair V → Text
  name_of (none, y) = []
  name_of (some x, y) = get_name x

  abbrev pub insert_rose : Rose (Pair V) → Roses (Pair V) → Roses (Pair V)
  insert_rose r Roses.nil = Roses.cons r Roses.nil
  insert_rose r (Roses.cons s rs) =
      if text_lt (name_of (top s)) (name_of (top r))
      then Roses.cons s (insert_rose r rs)
      else Roses.cons r (Roses.cons s rs)

  pub Each-insert_rose :
      (P : Rose (Pair V) → Type 0) (r : Rose (Pair V)) (rs : Roses (Pair V))
      → P r
      → Each P rs
      → Each P (insert_rose r rs)
  Each-insert_rose P r Roses.nil p ps = (p, tt)
  Each-insert_rose P r (Roses.cons s rs) p (q, ps) =
      elim (Bool-cases (text_lt (name_of (top s)) (name_of (top r)))) [
        | inl e ↦ rw e (q, Each-insert_rose P r rs p ps)
        | inr e ↦ rw e (p, (q, ps))
      ]

  pub turns_each-insert_rose :
      (r : Rose (Pair V)) (rs : Roses (Pair V))
      → turns_each (insert_rose r rs) ≡ turns r + turns_each rs
  unfolding turns_each
  turns_each-insert_rose r Roses.nil = refl
  turns_each-insert_rose r (Roses.cons s rs) =
      elim (Bool-cases (text_lt (name_of (top s)) (name_of (top r)))) [
        | inl e ↦ rw e (omega (turns_each-insert_rose r rs, arith))
        | inr e ↦ rw e refl
      ]

  -- The places of two sorted lists with the same names.
  abbrev pub Zips : List (Node V) → List (Node V) → Roses (Pair V) → Type 0
  Zips [] [] Roses.nil = Unit
  Zips (x ∷ xs) (y ∷ ys) (Roses.cons r rs) =
      (top r ≡ (some x, some y)) × (get_name x ≡ get_name y) × Zips xs ys rs
  Zips [] [] (Roses.cons r rs) = ⊥
  Zips [] (y ∷ ys) rs = ⊥
  Zips (x ∷ xs) [] rs = ⊥
  Zips (x ∷ xs) (y ∷ ys) Roses.nil = ⊥

  Zips-insert :
      (c d : Node V) (xs ys : List (Node V)) (r : Rose (Pair V)) (rs : Roses (Pair V))
      → top r ≡ (some c, some d)
      → get_name c ≡ get_name d
      → Zips xs ys rs
      → Zips (insert less_by_name c xs) (insert less_by_name d ys) (insert_rose r rs)
  unfolding insert less_by_name
  Zips-insert c d [] [] r Roses.nil e h z = (e, h, tt)
  Zips-insert c d [] [] r (Roses.cons s rs) e h z = elim z [ ]
  Zips-insert c d [] (y ∷ ys) r rs e h z = elim z [ ]
  Zips-insert c d (x ∷ xs) [] r rs e h z = elim z [ ]
  Zips-insert c d (x ∷ xs) (y ∷ ys) r Roses.nil e h z = elim z [ ]
  Zips-insert c d (x ∷ xs) (y ∷ ys) r (Roses.cons s rs) e h (f, k, z) =
      elim (Bool-cases (text_lt (get_name x) (get_name c))) [
        | inl t ↦
            rw (ap name_of f, ap name_of e, t, ap₂ text_lt (sym k) (sym h) ∙ t)
              (f, k, Zips-insert c d xs ys r rs e h z)
        | inr t ↦
            rw (ap name_of f, ap name_of e, t, ap₂ text_lt (sym k) (sym h) ∙ t) (e, h, (f, k, z))
      ]

  split_step_same :
      (x y : Node V) (xs ys : List (Node V)) (s : Split (Node V))
      → get_name x ≡ get_name y
      → split_step less_by_name x xs y ys s
        ≡ (xs, ys, record s { inter_x = s.inter_x ++ x ∷ []; inter_y = s.inter_y ++ y ∷ [] })
  unfolding split_step less_by_name
  split_step_same x y xs ys s k = rw (k, text_lt_irrefl (get_name y)) refl

  split_loop-Zips :
      (fuel : ℕ) (xs ys is js : List (Node V)) (rs : Roses (Pair V))
      → Zips xs ys rs
      → length xs ≤ fuel
      → split_loop less_by_name fuel xs ys
          (record { inter_x = is; diff_x = []; inter_y = js; diff_y = [] })
        ≡ record { inter_x = is ++ xs; diff_x = []; inter_y = js ++ ys; diff_y = [] }
  unfolding split_loop split_step less_by_name
  split_loop-Zips fuel [] [] is js Roses.nil z h = simp append-nil refl
  split_loop-Zips fuel [] [] is js (Roses.cons r rs) z h = elim z [ ]
  split_loop-Zips fuel [] (y ∷ ys) is js rs z h = elim z [ ]
  split_loop-Zips fuel (x ∷ xs) [] is js rs z h = elim z [ ]
  split_loop-Zips fuel (x ∷ xs) (y ∷ ys) is js Roses.nil z h = elim z [ ]
  split_loop-Zips zero (x ∷ xs) (y ∷ ys) is js (Roses.cons r rs) z h = ground arith
  split_loop-Zips (suc fuel) (x ∷ xs) (y ∷ ys) is js (Roses.cons r rs) (e, k, z) h =
      ap (λ t. split_loop less_by_name fuel t.0 t.1 t.2) (split_step_same x y xs ys _ k)
      ∙ split_loop-Zips fuel xs ys (is ++ x ∷ []) (js ++ y ∷ []) rs z (omega arith)
      ∙ simp append_assoc refl

  both-Zips : (xs ys : List (Node V)) (rs : Roses (Pair V)) → Zips xs ys rs → both xs ys ≡ tops rs
  both-Zips [] [] Roses.nil z = refl
  both-Zips [] [] (Roses.cons r rs) z = elim z [ ]
  both-Zips [] (y ∷ ys) rs z = elim z [ ]
  both-Zips (x ∷ xs) [] rs z = elim z [ ]
  both-Zips (x ∷ xs) (y ∷ ys) Roses.nil z = elim z [ ]
  both-Zips (x ∷ xs) (y ∷ ys) (Roses.cons r rs) (e, k, z) = rw (e, both-Zips xs ys rs z) refl

  pub zip_lists-Zips :
      (xs ys : List (Node V)) (rs : Roses (Pair V)) → Zips xs ys rs → zip_lists xs ys ≡ tops rs
  unfolding zip_lists set_intersection_difference
  zip_lists-Zips xs ys rs z =
      rw (split_loop-Zips (length xs + length ys) xs ys [] [] rs z (omega arith))
        (append-nil (both xs ys) ∙ both-Zips xs ys rs z)

  unfoldable mutual
    -- The places of two reordered trees.
    pub zipped : {c d : Node V} → Reordered c d → Rose (Pair V)
    zipped {c} {d} (reordered n v l {cs} {ds} p) =
        rose (some (node n v cs l), some (node n v ds l)) (zipped_each p)

    pub zipped_each : {cs ds : Children V} → Permuted cs ds → Roses (Pair V)
    zipped_each empty = Roses.nil
    zipped_each (put r p i h k) = insert_rose (zipped r) (zipped_each p)

  pub top-zipped : {c d : Node V} (r : Reordered c d) → top (zipped r) ≡ (some c, some d)
  unfolding zipped
  top-zipped (reordered n v l p) = refl

  name-Reordered : {c d : Node V} → Reordered c d → get_name c ≡ get_name d
  name-Reordered (reordered n v l p) = refl

  pub Zips-zipped_each :
      {cs ds : Children V} (p : Permuted cs ds)
      → Zips (sorted less_by_name (to_list cs)) (sorted less_by_name (to_list ds)) (zipped_each p)
  unfolding zipped sorted
  Zips-zipped_each empty = tt
  Zips-zipped_each (put {c} {d} {cs} {ds} {es} r p i h k) = rw (sorted-Inserted i k) (
      Zips-insert c d _ _ (zipped r) (zipped_each p) (top-zipped r) (name-Reordered r)
        (Zips-zipped_each p))

  pub distinct_left : {cs ds : Children V} → Permuted cs ds → distinct_names (to_list cs) ≡ true
  distinct_left empty = refl
  distinct_left (put r p i h k) = rw (h, distinct_left p) refl

  pub distinct_right : {cs ds : Children V} → Permuted cs ds → distinct_names (to_list ds) ≡ true
  distinct_right empty = refl
  distinct_right (put r p i h k) = distinct_names-Inserted i k (distinct_right p)
