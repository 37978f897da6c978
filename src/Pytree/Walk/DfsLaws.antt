-- ===== src/Pytree/Walk/DfsLaws.antt =====
-- The depth-first iterators yield exactly the matching nodes of the depth range, in order.
use maia.Base.{
  ℕ, suc, leb, ◌≡◌, refl, sym, ap, ◌∙◌, List, [], ◌++◌, Bool, true, false, ◌&&◌, length, yield_if,
  Bool-cases, inl, inr, arith,
}
use mathlib.Core.Path.{fun_ext}
use maia.Pytree.Node.{Node, node, Children, nil, cons}
use maia.Pytree.Walk.Options.{Sort, Depth, everywhere, cond1, cond2, in_order}
use maia.Pytree.Walk.OrderLaws.{in_order-nil}
use maia.Pytree.Walk.Places.{
  Place, reached, in_range, places_below, places_children, places, select, select-in_order,
}
use maia.Pytree.Walk.NodesIterator.{
  dfs_below, dfs_children, dfs, range_dfs_below, range_dfs_children, range_dfs,
}

cond2-everywhere : (level : ℕ) → cond2 everywhere level ≡ true
unfolding cond2
cond2-everywhere level = refl

cond2-eq-reached : (d : Depth) (level : ℕ) → cond2 d level ≡ reached d (suc level)
unfolding cond2 reached
cond2-eq-reached d level = ground arith

reached-suc : (d : Depth) (level : ℕ) → reached d level ≡ false → reached d (suc level) ≡ false
unfolding reached
reached-suc d level h = ground arith

module _ {V : Type 0} (d : Depth) (s : Sort) (p : Node V → Bool) where
  abbrev pub chosen : Place V → Bool
  chosen t = in_range d (length t.0) && p t.1

  mutual
    unfolding places_below

    select_below_unreached :
        (c : Node V) (above : List (Node V))
        → reached d (suc (length above)) ≡ false
        → select chosen (places_below s c above) ≡ []
    select_below_unreached (node n v cs l) above h = select_children_unreached cs _ h

    select_children_unreached :
        (cs : Children V) (above : List (Node V))
        → reached d (length above) ≡ false
        → select chosen (places_children s cs above) ≡ []
    select_children_unreached nil above h = refl
    select_children_unreached (cons c cs) above h =
        select-in_order s chosen _ _
        ∙ rw (select_children_unreached cs above h) (
            ground (
              arith,
              in_order-nil {A = Node V} s,
              select_below_unreached c above (reached-suc d _ h),
            ))

  chosen_self :
      (c : Node V) (above : List (Node V))
      → reached d (length above) ≡ true
      → chosen (above, c) ≡ (leb d.low (length above) && p c)
  chosen_self c above h = ground arith

  mutual
    unfolding places_below range_dfs_below

    range_dfs_below-select :
        (c : Node V) (above : List (Node V))
        → reached d (suc (length above)) ≡ true
        → range_dfs_below d s p c (suc (length above)) ≡ select chosen (places_below s c above)
    range_dfs_below-select (node n v cs l) above h = range_dfs_children-select cs _ h

    range_dfs_children-select :
        (cs : Children V) (above : List (Node V))
        → reached d (length above) ≡ true
        → range_dfs_children d s p cs (length above) ≡ select chosen (places_children s cs above)
    range_dfs_children-select nil above h = refl
    range_dfs_children-select (cons c cs) above h = rw (range_dfs_children-select cs above h) (
        ap (λ (xs : List (Node V)). in_order s xs (select chosen (places_children s cs above)))
          (elim (Bool-cases (reached d (suc (length above)))) [
            | inl more ↦
                ground
                  (arith, cond2-eq-reached d (length above), range_dfs_below-select c above more)
            | inr done ↦
                ground
                  (arith, cond2-eq-reached d (length above), select_below_unreached c above done)
          ])
        ∙ sym (select-in_order s chosen _ _))

  cond1-eq-reached : cond1 d ≡ reached d 1
  unfolding cond1 reached
  cond1-eq-reached = ground arith

  reached-zero : reached d 0 ≡ true
  unfolding reached
  reached-zero = ground arith

  -- `RangeLevelNodesIterator.dfs` yields the matching nodes of the depth range, each once, in
  -- depth-first order, and nothing else.
  pub range_dfs-select : (root : Node V) → range_dfs d s p root ≡ select chosen (places s root)
  unfolding range_dfs places
  range_dfs-select root = elim (Bool-cases (reached d 1)) [
    | inl more ↦ ground (arith, cond1-eq-reached, reached-zero, range_dfs_below-select root [] more)
    | inr done ↦ ground (arith, cond1-eq-reached, reached-zero, select_below_unreached root [] done)
  ]

module _ {V : Type 0} (s : Sort) (p : Node V → Bool) where
  mutual
    unfolding dfs_below range_dfs_below

    dfs_below-range :
        (c : Node V) (level : ℕ) → dfs_below s p c ≡ range_dfs_below everywhere s p c level
    dfs_below-range (node n v cs l) level = dfs_children-range cs level

    dfs_children-range :
        (cs : Children V) (level : ℕ)
        → dfs_children s p cs ≡ range_dfs_children everywhere s p cs level
    dfs_children-range nil level = refl
    dfs_children-range (cons c cs) level =
        ground (
          arith,
          cond2-everywhere level,
          dfs_below-range c (suc level),
          dfs_children-range cs level,
        )

  chosen-everywhere : (above : List (Node V)) (c : Node V) → chosen everywhere s p (above, c) ≡ p c
  unfolding reached
  chosen-everywhere above c = ground arith

  -- `NodesIterator.dfs` yields every matching node of the tree, each once, in depth-first order.
  pub dfs-select : (root : Node V) → dfs s p root ≡ select (λ t. p t.1) (places s root)
  unfolding dfs
  dfs-select root =
      rw (dfs_below-range root 1) (whole ∙ range_dfs-select everywhere s p root ∙ same)
    where
      whole :
          yield_if (p root) root ++ range_dfs_below everywhere s p root 1
          ≡ range_dfs everywhere s p root
      whole = unfold range_dfs cond1 in refl

      same : select (chosen everywhere s p) (places s root) ≡ select (λ t. p t.1) (places s root)
      same =
          ap (λ (test : Place V → Bool). select test (places s root))
            (fun_ext λ t. chosen-everywhere t.0 t.1)
