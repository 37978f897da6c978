-- ===== src/Graph/QuietLaws.antt =====
-- A visitor without `down` and `up` is called at the nodes only, each time on the node alone.
use mathlib.Core.List.{reverse, reverse-cons, reverse-reverse}
use maia.Base.{
  ◌-◌, ◌≡◌, refl, ap, ◌∙◌, List, [], ◌∷◌, ◌++◌, Option, none, some, map, length, drop,
  length-append, arith,
}
use maia.Base.Result.{Result, ok, raised}
use maia.Graph.Stack.{Step, Visitor}
use maia.Graph.Traversal.{Roses, nil, cons, top, path, enter, pass}
use maia.Graph.Visitors.{
  complete_visitor, close_ancestor_visitor, last_two, ancestors_list, visitor_of, first_two,
}

module _ {N : Type 0} where
  drop-before : (xs : List (Option N)) (x : Option N) → drop (length xs) (xs ++ x ∷ []) ≡ x ∷ []
  drop-before [] x = refl
  drop-before (y ∷ xs) x = drop-before xs x

  ancestors_list-one :
      (xs : List (Option N)) (x : Option N) → ancestors_list 1 (xs ++ x ∷ []) ≡ x ∷ []
  unfolding ancestors_list
  ancestors_list-one xs x =
      let e : length (xs ++ x ∷ []) - 1 ≡ length xs = omega (length-append xs (x ∷ []), arith) in
      rw (e, drop-before xs x) refl

  pub ancestors_list-path :
      (n : N) (above : List N)
      → ancestors_list 1 (reverse (map (λ (m : N). some m) (n ∷ above))) ≡ some n ∷ []
  ancestors_list-path n above =
      rw (reverse-cons (some n) (map (λ (m : N). some m) above))
        (ancestors_list-one (reverse (map (λ (m : N). some m) above)) (some n))

  last_two-path :
      (n a : N) (above : List N)
      → last_two (reverse (map (λ (m : N). some m) (n ∷ a ∷ above))) ≡ ok (some a, some n)
  unfolding last_two
  last_two-path n a above = ap first_two (reverse-reverse (map (λ (m : N). some m) (n ∷ a ∷ above)))

module _ {N S : Type 0} (pre : Option (List (Option N) → S → Result (S × Option Step)))
    (post : Option (List (Option N) → S → Result S)) where
  -- What the search calls.
  abbrev pub quiet : Visitor N (Result S)
  quiet = visitor_of (
      close_ancestor_visitor
        (complete_visitor (record { pre = pre; post = post; down = none; up = none })) 1)

  quiet-down :
      (n a : N) (above : List N) (r : Result S) → quiet.down (path quiet n (a ∷ above)) r ≡ r
  unfolding close_ancestor_visitor complete_visitor
  quiet-down n a above (raised e) = refl
  quiet-down n a above (ok s) = rw (last_two-path n a above) refl

  pub quiet-up :
      (n a : N) (above : List N) (r : Result S) → quiet.up (path quiet n (a ∷ above)) r ≡ r
  unfolding close_ancestor_visitor complete_visitor
  quiet-up n a above (raised e) = refl
  quiet-up n a above (ok s) = rw (last_two-path n a above) refl

  pub enter-same :
      (cs : Roses N) (a : N) (above : List N) (r : Result S) → enter quiet cs (a ∷ above) r ≡ r
  enter-same nil a above r = refl
  enter-same (cons c cs) a above r = quiet-down (top c) a above r

  pub pass-same :
      (n : N) (rs : Roses N) (above : List N) (r : Result S) → pass quiet n rs above r ≡ r
  pass-same n rs [] r = refl
  pass-same n rs (a ∷ above) r =
      enter-same rs a above (quiet.up (path quiet n (a ∷ above)) r) ∙ quiet-up n a above r
