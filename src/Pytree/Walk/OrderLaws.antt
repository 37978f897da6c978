-- ===== src/Pytree/Walk/OrderLaws.antt =====
-- The order of the children, under the functions on lists.
use maia.Base.{
  ℕ, ◌+◌, ◌≡◌, refl, ◌∙◌, List, [], ◌∷◌, map, concat, head?, head?-append, append-nil, map-append,
  arith,
}
use maia.Pytree.Walk.Options.{Sort, forward, backward, in_order, first_of}
use maia.Pytree.Walk.Queue.{total, total-append, concat-append}

module _ {A : Type 0} where
  pub in_order-nil : (s : Sort) → in_order {A = A} s [] [] ≡ []
  in_order-nil forward = refl
  in_order-nil backward = refl

  pub map-in_order :
      (s : Sort) {B : Type 0} (f : A → B) (xs ys : List A)
      → map f (in_order s xs ys) ≡ in_order s (map f xs) (map f ys)
  map-in_order forward f xs ys = map-append _ _ _
  map-in_order backward f xs ys = map-append _ _ _

  pub concat-in_order :
      (s : Sort) (x : List A) (ys : List (List A))
      → concat (in_order s (x ∷ []) ys) ≡ in_order s x (concat ys)
  concat-in_order forward x ys = refl
  concat-in_order backward x ys = concat-append ys (x ∷ []) ∙ rw append-nil

  pub total-in_order :
      (s : Sort) (cost : A → ℕ) (x : A) (ys : List A)
      → total cost (in_order s (x ∷ []) ys) ≡ cost x + total cost ys
  total-in_order forward cost x ys = omega arith
  total-in_order backward cost x ys = omega (arith, total-append cost ys (x ∷ []))

  pub head?-in_order :
      (s : Sort) (xs ys : List A) → head? (in_order s xs ys) ≡ first_of s (head? xs) (head? ys)
  head?-in_order forward xs ys = head?-append xs ys
  head?-in_order backward xs ys = head?-append ys xs
