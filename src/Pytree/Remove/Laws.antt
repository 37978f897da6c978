-- ===== src/Pytree/Remove/Laws.antt =====
-- Deleting by indices from the last to the first is filtering.
use mathlib.Core.List.{reverse, reverse-append}
use maia.Base.{
  ℕ, suc, ◌≡◌, refl, ap, ◌∙◌, List, [], ◌∷◌, ◌++◌, Bool, true, false, not, Option, if◌then◌else◌,
  map, arith, map-append, Text,
}
use maia.Pytree.Node.{Node, node, Children, nil, cons}
use maia.Pytree.Remove.{delete_each, matching, rm_children}

module _ {V : Type 0} where
  delete_each-append :
      (is js : List ℕ) (cs : Children V)
      → delete_each (is ++ js) cs ≡ delete_each js (delete_each is cs)
  unfolding delete_each
  delete_each-append [] js cs = refl
  delete_each-append (i ∷ is) js cs = delete_each-append is js _

  delete_each-map-suc :
      (is : List ℕ) (c : Node V) (cs : Children V)
      → delete_each (map suc is) (cons c cs) ≡ cons c (delete_each is cs)
  unfolding delete_each
  delete_each-map-suc [] c cs = refl
  delete_each-map-suc (i ∷ is) c cs = delete_each-map-suc is c _

  -- The children whose counterparts in the first list do not match.
  unfoldable pub keep_unmatched : (Node V → Bool) → Children V → Children V → Children V
  keep_unmatched p nil ds = ds
  keep_unmatched p (cons c cs) nil = nil
  keep_unmatched p (cons c cs) (cons d ds) =
      if p c then keep_unmatched p cs ds else cons d (keep_unmatched p cs ds)

  matching-suc :
      (p : Node V → Bool) (i : ℕ) (cs : Children V)
      → matching p (suc i) cs ≡ map suc (matching p i cs)
  unfolding matching
  matching-suc p i nil = refl
  matching-suc p i (cons c cs) = ground (arith, matching-suc p (suc i) cs)

reverse-map-suc : (is : List ℕ) → reverse (map suc is) ≡ map suc (reverse is)
reverse-map-suc [] = refl
reverse-map-suc (i ∷ is) =
    reverse-append (suc i ∷ []) (map suc is)
    ∙ rw (reverse-map-suc is, reverse-append (i ∷ []) is, map-append)

delete_each-nil : {V : Type 0} (is : List ℕ) → delete_each {V = V} is nil ≡ nil
unfolding delete_each
delete_each-nil [] = refl
delete_each-nil (i ∷ is) = delete_each-nil is

module _ {V : Type 0} where
  -- `filter`, on the list of children.
  unfoldable pub keep : (Node V → Bool) → Children V → Children V
  keep q nil = nil
  keep q (cons c cs) = if q c then cons c (keep q cs) else keep q cs

module _ {V : Type 0} (p : Node V → Bool) where
  keep_unmatched-nil : (cs : Children V) → keep_unmatched p cs nil ≡ nil
  unfolding keep_unmatched
  keep_unmatched-nil nil = refl
  keep_unmatched-nil (cons c cs) = refl

  delete_each-keep_cons :
      (is : List ℕ) (d : Node V) (ds : Children V) (b : Bool)
      → delete_each (reverse (if b then 0 ∷ map suc is else map suc is)) (cons d ds)
        ≡ (if b then delete_each (reverse is) ds else cons d (delete_each (reverse is) ds))
  unfolding delete_each
  delete_each-keep_cons is d ds true = rw (
    reverse-append (0 ∷ []) (map suc is),
    delete_each-append (reverse (map suc is)) (0 ∷ []) (cons d ds),
    reverse-map-suc is,
    delete_each-map-suc (reverse is) d ds,
  )
  delete_each-keep_cons is d ds false =
      rw (reverse-map-suc is, delete_each-map-suc (reverse is) d ds)

  -- Deleting the matching indices, the last first, keeps what stands at the other indices.
  pub delete_each-keep :
      (cs ds : Children V) → delete_each (reverse (matching p 0 cs)) ds ≡ keep_unmatched p cs ds
  unfolding keep_unmatched matching
  delete_each-keep cs nil = rw (delete_each-nil, keep_unmatched-nil cs)
  delete_each-keep nil (cons d ds) = unfold delete_each in refl
  delete_each-keep (cons c cs) (cons d ds) =
      rw (matching-suc p 0 cs)
        (delete_each-keep_cons (matching p 0 cs) d ds (p c) ∙ rw (delete_each-keep cs ds))

  keep_unmatched_self : (cs : Children V) → keep_unmatched p cs cs ≡ keep (λ n. not (p n)) cs
  unfolding keep_unmatched keep
  keep_unmatched_self nil = refl
  keep_unmatched_self (cons c cs) = ground (arith, keep_unmatched_self cs)

  -- `rm_children_from_predicate` removes the matching children and keeps the others, unchanged
  -- and in order.
  rm_children-keep :
      (n : Text) (v : Option V) (cs : Children V) (l : Text)
      → rm_children p (node n v cs l) ≡ node n v (keep (λ c. not (p c)) cs) l
  unfolding rm_children
  rm_children-keep n v cs l =
      ap (λ (ds : Children V). node n v ds l) (delete_each-keep cs cs ∙ keep_unmatched_self cs)
