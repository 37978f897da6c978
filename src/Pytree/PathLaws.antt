-- ===== src/Pytree/PathLaws.antt =====
-- The functions on paths take paths apart and put them together.
use maia.Base.{
  ℕ, ◌<◌, ◌==◌, ◌≡◌, refl, ap, sym, ◌∙◌, List, [], ◌∷◌, ◌++◌, length, take, drop, Text, Bool-cases,
  inl, inr, ==_iff, arith, take-append-drop, append_assoc,
}
use maia.Utils.ListLaws.{length-take, length-drop}
use maia.Base.Int.{ℤ}
use maia.Pytree.Paths.{slash, onto_first, split, join, cut, path_head, path_tail}

no_item : 0 < 0 → ⊥
no_item h = omega arith

join-onto_first : (c : ℕ) (ss : List Text) → 0 < length ss → join (onto_first c ss) ≡ c ∷ join ss
unfolding join
join-onto_first c [] h = elim (no_item h) [ ]
join-onto_first c (s ∷ []) h = refl
join-onto_first c (s ∷ t ∷ ss) h = refl

pub length-split : (path : Text) → 0 < length (split path)
unfolding split
length-split [] = omega arith
length-split (c ∷ path) = elim (Bool-cases (c == slash)) [
  | inl e ↦ rw e (omega arith)
  | inr e ↦ rw e (length-onto_first c (split path))
]
  where
    length-onto_first : (c : ℕ) (ss : List Text) → 0 < length (onto_first c ss)
    length-onto_first c [] = omega arith
    length-onto_first c (s ∷ ss) = omega arith

join-empty : (ss : List Text) → 0 < length ss → join ([] ∷ ss) ≡ slash ∷ join ss
unfolding join
join-empty [] h = elim (no_item h) [ ]
join-empty (s ∷ ss) h = refl

pub join-split : (path : Text) → join (split path) ≡ path
unfolding split join
join-split [] = refl
join-split (c ∷ path) = elim (Bool-cases (c == slash)) [
  | inl e ↦ rw e (
      join-empty (split path) (length-split path)
      ∙ ap (λ s. slash ∷ s) (join-split path)
      ∙ ap (λ d. d ∷ path) (sym ((==_iff c slash).0 e)))
  | inr e ↦
      rw e (join-onto_first c (split path) (length-split path) ∙ ap (λ s. c ∷ s) (join-split path))
]

join-append :
    (ss ts : List Text)
    → 0 < length ss
    → 0 < length ts
    → join (ss ++ ts) ≡ join ss ++ (slash ∷ join ts)
unfolding join
join-append [] ts h k = elim (no_item h) [ ]
join-append (s ∷ []) [] h k = elim (no_item k) [ ]
join-append (s ∷ []) (t ∷ ts) h k = refl
join-append (s ∷ r ∷ ss) ts h k =
    ap (λ x. s ++ (slash ∷ x)) (join-append (r ∷ ss) ts (omega arith) k) ∙ sym (append_assoc s _ _)

-- `path_head` and `path_tail` cut a path in two: with a `/` between them they give the path back,
-- where the cut is neither before the first name nor behind the last.
path_head-path_tail :
    (path : Text) (i : ℤ)
    → 0 < cut i (length (split path))
    → cut i (length (split path)) < length (split path)
    → path_head path i ++ (slash ∷ path_tail path i) ≡ path
unfolding path_head path_tail
path_head-path_tail path i h k =
    let n = cut i (length (split path)) in
    sym (
      join-append (take n (split path)) (drop n (split path))
        (omega (arith, length-take n (split path) (omega arith)))
        (omega (arith, length-drop n (split path))))
    ∙ ap join (take-append-drop n (split path))
    ∙ join-split path
