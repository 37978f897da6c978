-- ===== src/Pytree/Walk/ShallowLaws.antt =====
-- The shallow iterators yield the matching nodes that have no matching ancestor but the root.
use maia.Base.{◌≡◌, refl, sym, ap, ◌∙◌, List, [], ◌∷◌, Bool, true, false, not, ◌&&◌, any, arith}
use maia.Pytree.Node.{Node, node, Children, nil, cons}
use maia.Pytree.Walk.Options.{Sort, in_order}
use maia.Pytree.Walk.OrderLaws.{in_order-nil}
use maia.Pytree.Walk.Places.{Place, places_below, places_children, places, select, select-in_order}
use maia.Pytree.Walk.ShallowIterator.{shallow_dfs_below, shallow_dfs_children, shallow_dfs}

module _ {V : Type 0} (s : Sort) (p : Node V → Bool) where
  -- The node matches, and of its ancestors at most the root, which stands last, does.
  abbrev pub below_root : List (Node V) → List (Node V)
  below_root [] = []
  below_root (n ∷ []) = []
  below_root (n ∷ m ∷ above) = n ∷ below_root (m ∷ above)

  abbrev pub topmost : Place V → Bool
  topmost t = p t.1 && not (any p (below_root t.0))

  mutual
    unfolding places_below

    select_below_covered :
        (c : Node V) (m : Node V) (above : List (Node V))
        → any p (below_root (c ∷ m ∷ above)) ≡ true
        → select topmost (places_below s c (m ∷ above)) ≡ []
    select_below_covered (node n v cs l) m above h = select_children_covered cs _ _ _ h

    select_children_covered :
        (cs : Children V) (n m : Node V) (above : List (Node V))
        → any p (below_root (n ∷ m ∷ above)) ≡ true
        → select topmost (places_children s cs (n ∷ m ∷ above)) ≡ []
    select_children_covered nil n m above h = refl
    select_children_covered (cons c cs) n m above h =
        select-in_order s topmost _ _
        ∙ rw (select_children_covered cs n m above h)
            (ground (arith, in_order-nil {A = Node V} s, select_below_covered c n (m ∷ above)))

  mutual
    unfolding shallow_dfs_below places_below

    shallow_dfs_below-select :
        (c : Node V) (above : List (Node V))
        → any p (below_root (c ∷ above)) ≡ false
        → shallow_dfs_below s p c ≡ select topmost (places_below s c above)
    shallow_dfs_below-select (node n v cs l) above h = shallow_dfs_children-select cs _ _ h

    shallow_dfs_children-select :
        (cs : Children V) (n : Node V) (above : List (Node V))
        → any p (below_root (n ∷ above)) ≡ false
        → shallow_dfs_children s p cs ≡ select topmost (places_children s cs (n ∷ above))
    shallow_dfs_children-select nil n above h = refl
    shallow_dfs_children-select (cons c cs) n above h =
        rw (shallow_dfs_children-select cs n above h) (
          ap
            (λ (xs : List (Node V)).
              in_order s xs (select topmost (places_children s cs (n ∷ above))))
            (ground (arith, select_below_covered c n above, shallow_dfs_below-select c (n ∷ above)))
          ∙ sym (select-in_order s topmost _ _))

  -- `ShallowNodesIterator.dfs` yields, in depth-first order, the matching nodes that have no
  -- matching ancestor other than the root: a match hides what is under it, unless it is the root.
  pub shallow_dfs-select : (root : Node V) → shallow_dfs s p root ≡ select topmost (places s root)
  unfolding shallow_dfs places
  shallow_dfs-select root = ground (arith, shallow_dfs_below-select root [])
