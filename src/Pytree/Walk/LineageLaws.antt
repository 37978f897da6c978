-- ===== src/Pytree/Walk/LineageLaws.antt =====
-- What a lineage of a chain of predicates is made of.
use mathlib.Core.Option
use mathlib.Core.Option.{some-injective, none-ne-some}
use maia.Base.{
  ◌≡◌, refl, sym, List, [], ◌∷◌, ◌++◌, Bool, Option, none, some, map, ◌⊎◌, inl, inr, Option-cases,
}
use maia.Pytree.Node.{Node}
use maia.Pytree.Walk.Chains.{append?, Options, yield_from, walk, iter_lineages}

abbrev pub Each : {A : Type 0} → (A → Type 0) → List A → Type 0
Each P [] = Unit
Each P (x ∷ xs) = P x × Each P xs

abbrev pub Among : {A : Type 0} → A → List A → Type 0
Among x [] = ⊥
Among x (y ∷ ys) = (x ≡ y) ⊎ Among x ys

-- One node for each predicate, found by its predicate under the node before it.
abbrev pub IsLineage :
    {V : Type 0} → Options → List (Node V → Bool) → Node V → List (Node V) → Type 0
IsLineage o [] parent [] = Unit
IsLineage o [] parent (n ∷ l) = ⊥
IsLineage o (p ∷ ps) parent [] = ⊥
IsLineage o (p ∷ ps) parent (n ∷ l) =
    ((ns : List _) × (walk o p parent ≡ some ns) × Among n ns) × IsLineage o ps n l

Each-append :
    {A : Type 0} (P : A → Type 0) (xs ys : List A) → Each P xs → Each P ys → Each P (xs ++ ys)
Each-append P [] ys a b = b
Each-append P (x ∷ xs) ys a b = (a.0, Each-append P xs ys a.1 b)

Each-map :
    {A B : Type 0} (P : B → Type 0) (Q : A → Type 0) (f : A → B)
    → ((x : A) → Q x → P (f x))
    → (xs : List A) → Each Q xs
    → Each P (map f xs)
Each-map P Q f h [] a = tt
Each-map P Q f h (x ∷ xs) a = (h x a.0, Each-map P Q f h xs a.1)

module _ {B : Type 0} (P : B → Type 0) where
  Each-append? :
      (a b : Option (List B)) (r : List B)
      → append? a b ≡ some r
      → ((q : List B) → a ≡ some q → Each P q)
      → ((q : List B) → b ≡ some q → Each P q)
      → Each P r
  Each-append? none b r e h k = absurd (none-ne-some r e)
  Each-append? (some xs) none r e h k = absurd (none-ne-some r e)
  Each-append? (some xs) (some ys) r e h k =
      rw (sym (some-injective (xs ++ ys) r e)) (Each-append P xs ys (h xs refl) (k ys refl))

  Each-yield_from :
      {A : Type 0} (f : A → Option (List B)) (xs : List A) (r : List B)
      → yield_from f xs ≡ some r
      → ((x : A) → Among x xs → (q : List B) → f x ≡ some q → Each P q)
      → Each P r
  Each-yield_from f [] r e h = rw (sym (some-injective [] r e)) tt
  Each-yield_from f (x ∷ xs) r e h =
      Each-append? (f x) (yield_from f xs) r e (λ q k. h x (inl refl) q k)
        (λ q k. Each-yield_from f xs q k (λ y m. h y (inr m)))

module _ {V : Type 0} (o : Options) where
  singles-IsLineage :
      (p : Node V → Bool) (parent : Node V) (ns : List (Node V))
      → walk o p parent ≡ some ns
      → (ms : List (Node V)) → ((n : Node V) → Among n ms → Among n ns)
      → Each (IsLineage o (p ∷ []) parent) (map (λ n. n ∷ []) ms)
  singles-IsLineage p parent ns e [] h = tt
  singles-IsLineage p parent ns e (m ∷ ms) h =
      (((ns, e, h m (inl refl)), tt), singles-IsLineage p parent ns e ms (λ n k. h n (inr k)))

  below :
      (p q : Node V → Bool) (ps : List (Node V → Bool)) (parent n : Node V)
      → (ns : List (Node V)) × (walk o p parent ≡ some ns) × Among n ns
      → (found : Option (List (List (Node V))))
      → ((ks : List (List (Node V))) → found ≡ some ks → Each (IsLineage o (q ∷ ps) n) ks)
      → (r : List (List (Node V))) → Option.map (map (λ subnode. n ∷ subnode)) found ≡ some r
      → Each (IsLineage o (p ∷ q ∷ ps) parent) r
  below p q ps parent n m none f r k = absurd (none-ne-some r k)
  below p q ps parent n m (some ks) f r k = rw (sym (some-injective (map (λ l. n ∷ l) ks) r k)) (
      Each-map (IsLineage o (p ∷ q ∷ ps) parent) (IsLineage o (q ∷ ps) n) (λ l. n ∷ l)
        (λ l a. (m, a)) ks (f ks refl))

  pub iter_lineages-IsLineage :
      (ps : List (Node V → Bool)) (parent : Node V) (ls : List (List (Node V)))
      → iter_lineages o ps parent ≡ some ls
      → Each (IsLineage o ps parent) ls
  unfolding iter_lineages Option.bind
  iter_lineages-IsLineage [] parent ls e = rw (sym (some-injective [] ls e)) tt
  iter_lineages-IsLineage (p ∷ []) parent ls e = elim (Option-cases (walk o p parent)) [
    | inl h ↦ absurd (none-ne-some ls (rw h at e))
    | inr (ns, h) ↦
        rw (sym (some-injective (map (λ n. n ∷ []) ns) ls (rw h at e)))
          (singles-IsLineage p parent ns h ns (λ n k. k))
  ]
  iter_lineages-IsLineage (p ∷ q ∷ ps) parent ls e = elim (Option-cases (walk o p parent)) [
    | inl h ↦ absurd (none-ne-some ls (rw h at e))
    | inr (ns, h) ↦
        Each-yield_from (IsLineage o (p ∷ q ∷ ps) parent)
          (λ n. Option.map (map (λ subnode. n ∷ subnode)) (iter_lineages o (q ∷ ps) n)) ns ls
          (rw h at e)
          (λ n m r k.
            below p q ps parent n (ns, h, m) (iter_lineages o (q ∷ ps) n)
              (λ ks f. iter_lineages-IsLineage (q ∷ ps) n ks f) r k)
  ]
