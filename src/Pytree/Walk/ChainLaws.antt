-- ===== src/Pytree/Walk/ChainLaws.antt =====
-- Chains of predicates with and without the ancestors, and with one set of options or several.
use mathlib.Core.Option
use mathlib.Core.Path.{fun_ext}
use maia.Base.{◌≡◌, refl, ap, ◌∙◌, List, [], ◌∷◌, ◌++◌, Bool, Option, none, some, map, map-append}
use maia.Pytree.Node.{Node}
use maia.Pytree.Walk.WalkerLaws.{parse_total}
use maia.Pytree.Walk.Chains.{
  append?, Options, yield_from, walk, iter_nodes, iter_lineages, iter_nodes_each,
  iter_lineages_each,
}

-- The last item, or `d` if there is none.
abbrev pub last_of : {A : Type 0} → A → List A → A
last_of d [] = d
last_of d (x ∷ xs) = last_of x xs

map-append? :
    {A B : Type 0} (g : A → B) (a b : Option (List A))
    → Option.map (map g) (append? a b) ≡ append? (Option.map (map g) a) (Option.map (map g) b)
map-append? g none b = refl
map-append? g (some xs) none = refl
map-append? g (some xs) (some ys) = ap some (map-append g xs ys)

module _ {A B : Type 0} where
  map-yield_from :
      {C : Type 0} (g : B → C) (f : A → Option (List B)) (xs : List A)
      → Option.map (map g) (yield_from f xs) ≡ yield_from (λ x. Option.map (map g) (f x)) xs
  map-yield_from g f [] = refl
  map-yield_from g f (x ∷ xs) = map-append? g (f x) (yield_from f xs) ∙ rw (map-yield_from g f xs)

  yield_from_total :
      (f : A → Option (List B))
      → ((x : A) → (r : List B) × (f x ≡ some r))
      → (xs : List A) → (r : List B) × (yield_from f xs ≡ some r)
  yield_from_total f h [] = ([], refl)
  yield_from_total f h (x ∷ xs) =
      let (r, e) = h x in let (q, k) = yield_from_total f h xs in (r ++ q, rw (e, k))

module _ {V : Type 0} where
  map-last_of-cons :
      (parent n : Node V) (ls : List (List (Node V)))
      → map (last_of parent) (map (λ l. n ∷ l) ls) ≡ map (last_of n) ls
  map-last_of-cons parent n [] = refl
  map-last_of-cons parent n (l ∷ ls) =
      ap (λ (ms : List (Node V)). last_of n l ∷ ms) (map-last_of-cons parent n ls)

  map?-last_of-cons :
      (parent n : Node V) (ls : Option (List (List (Node V))))
      → Option.map (map (last_of parent)) (Option.map (map (λ l. n ∷ l)) ls)
        ≡ Option.map (map (last_of n)) ls
  map?-last_of-cons parent n none = refl
  map?-last_of-cons parent n (some ls) = ap some (map-last_of-cons parent n ls)

  last_of-bind :
      (f : Node V → Option (List (List (Node V)))) (h : Node V → Option (List (Node V)))
      (parent : Node V)
      → ((n : Node V) → Option.map (map (last_of n)) (f n) ≡ h n)
      → (ns : Option (List (Node V)))
      → Option.map
          (map (last_of parent))
          (Option.bind ns (yield_from (λ n. Option.map (map (λ l. n ∷ l)) (f n))))
        ≡ Option.bind ns (yield_from h)
  unfolding Option.bind
  last_of-bind f h parent e none = refl
  last_of-bind f h parent e (some ns) =
      map-yield_from (last_of parent) _ ns
      ∙ ap (λ (k : Node V → Option (List (Node V))). yield_from k ns)
          (fun_ext λ n. map?-last_of-cons parent n (f n) ∙ e n)

module _ {V : Type 0} (o : Options) where
  -- Every chain of searches ends.
  pub iter_nodes_total :
      (predicates : List (Node V → Bool)) (parent : Node V)
      → (r : List (Node V)) × (iter_nodes o predicates parent ≡ some r)
  unfolding iter_nodes Option.bind
  iter_nodes_total [] parent = ([], refl)
  iter_nodes_total (p ∷ []) parent = parse_total _ _ _ _ _ _
  iter_nodes_total (p ∷ q ∷ predicates) parent =
      let (ns, e) = parse_total o.explore o.search o.depth o.sort p parent in
      let (r, k) =
        yield_from_total (λ n. iter_nodes o (q ∷ predicates) n)
          (λ n. iter_nodes_total (q ∷ predicates) n) ns in
      (r, rw e k)

  -- With the ancestors, each answer of a chain is a lineage that ends in the answer without them.
  pub last_of-iter_lineages :
      (predicates : List (Node V → Bool)) (parent : Node V)
      → Option.map (map (last_of parent)) (iter_lineages o predicates parent)
        ≡ iter_nodes o predicates parent
  unfolding iter_nodes iter_lineages Option.bind
  last_of-iter_lineages [] parent = refl
  last_of-iter_lineages (p ∷ []) parent = ends (walk o p parent)
    where
      ends :
          (ns : Option (List (Node V)))
          → Option.map (map (last_of parent)) (Option.map (map (λ n. n ∷ [])) ns) ≡ ns
      ends none = refl
      ends (some ns) = ap some (each ns)
        where
          each : (ns : List (Node V)) → map (last_of parent) (map (λ n. n ∷ []) ns) ≡ ns
          each [] = refl
          each (n ∷ ns) = ap (λ (ms : List (Node V)). n ∷ ms) (each ns)
  last_of-iter_lineages (p ∷ q ∷ predicates) parent =
      last_of-bind _ _ parent (λ n. last_of-iter_lineages (q ∷ predicates) n) (walk o p parent)

  -- Options given for each predicate, when they are the same, act as common options.
  iter_nodes_each-same :
      (predicates : List (Node V → Bool)) (parent : Node V)
      → iter_nodes_each (map (λ p. (p, o)) predicates) parent ≡ iter_nodes o predicates parent
  unfolding iter_nodes iter_nodes_each
  iter_nodes_each-same [] parent = refl
  iter_nodes_each-same (p ∷ []) parent = refl
  iter_nodes_each-same (p ∷ q ∷ predicates) parent =
      ap (λ (f : Node V → Option (List (Node V))). Option.bind (walk o p parent) (yield_from f))
        (fun_ext λ n. iter_nodes_each-same (q ∷ predicates) n)

  -- The same for the lineages of a chain: equal options for each predicate act as common options.
  iter_lineages_each-same :
      (predicates : List (Node V → Bool)) (parent : Node V)
      → iter_lineages_each (map (λ p. (p, o)) predicates) parent ≡ iter_lineages o predicates parent
  unfolding iter_lineages iter_lineages_each
  iter_lineages_each-same [] parent = refl
  iter_lineages_each-same (p ∷ []) parent = refl
  iter_lineages_each-same (p ∷ q ∷ predicates) parent =
      ap
        (λ (f : Node V → Option (List (List (Node V)))).
          Option.bind (walk o p parent)
            (yield_from (λ n. Option.map (map (λ subnode. n ∷ subnode)) (f n))))
        (fun_ext λ n. iter_lineages_each-same (q ∷ predicates) n)
