-- ===== src/Pytree/Walk/Places.antt =====
-- What the searches are held to: every node of a tree in depth-first order, with its ancestors.
use maia.Base.{
  ℕ, leb, ◌≡◌, ap, ◌∙◌, List, [], ◌∷◌, Bool, true, ◌&&◌, none, some, map, filter, filter-append,
  map-append,
}
use maia.Pytree.Node.{Node, node, Children, nil, cons}
use maia.Pytree.Walk.Options.{Sort, forward, backward, Depth, in_order}

-- The ancestors, the parent first, and the node.
abbrev pub Place : Type 0 → Type 0
Place V = List (Node V) × Node V

-- The level is not under the range.
unfoldable pub reached : Depth → ℕ → Bool
reached d level = elim (d.high) [ none ↦ true | some h ↦ leb level h ]

-- The level of a place lies in the depth range. The root has level 0.
abbrev pub in_range : Depth → ℕ → Bool
in_range d level = leb d.low level && reached d level

module _ {V : Type 0} where
  module _ (s : Sort) where
    unfoldable mutual
      pub places_below : Node V → List (Node V) → List (Place V)
      places_below (node n v cs l) above = places_children cs (node n v cs l ∷ above)

      pub places_children : Children V → List (Node V) → List (Place V)
      places_children nil above = []
      places_children (cons c cs) above =
          in_order s ((above, c) ∷ places_below c above) (places_children cs above)

    -- The root, then everything under it.
    unfoldable pub places : Node V → List (Place V)
    places root = ([], root) ∷ places_below root []

  -- The nodes at the places that pass the test.
  abbrev pub select : (Place V → Bool) → List (Place V) → List (Node V)
  select test ts = map (λ t. t.1) (filter test ts)

  pub select-in_order :
      (s : Sort) (test : Place V → Bool) (xs ys : List (Place V))
      → select test (in_order s xs ys) ≡ in_order s (select test xs) (select test ys)
  select-in_order forward test xs ys =
      ap (map (λ t. t.1)) (filter-append test xs ys) ∙ map-append _ _ _
  select-in_order backward test xs ys =
      ap (map (λ t. t.1)) (filter-append test ys xs) ∙ map-append _ _ _
