-- ===== src/Pytree/Walk/ApiLaws.antt =====
-- What the functions of `walkers_api.py` answer, and that they agree with one another.
use mathlib.Core.Option
use maia.Base.{
  ℕ, List, [], ◌∷◌, Bool, true, false, Option, none, some, if◌then◌else◌, ◌≡◌, refl, ap, sym, ◌∙◌,
  head?, arith, Bool-cases, Option-cases, inl, inr, map,
}
use maia.Base.{Text, text}
use maia.Base.Result.{ok, ◌>>=◌, Result-cases}
use maia.Pytree.Node.{Node}
use maia.Pytree.Walk.Options.{Sort, Depth}
use maia.Pytree.Walk.NodeParser.{Search, out_of_fuel, returns}
use maia.Pytree.Walk.NodesIterator.{dfs, range_dfs}
use maia.Pytree.Walk.Walker.{
  SearchKind, by_depth, by_breadth, Explore, check_search, check_explore, check_depth, new_walker,
  call, call_cached, parse, fresh_deep, unlimited,
}
use maia.Pytree.Walk.FindLaws.{find_dfs-head?, range_find_dfs-head?}
use maia.Pytree.Walk.FindBfsLaws.{find_bfs-head?, range_find_bfs-head?}
use maia.Pytree.Walk.Chains.{Options, find, iter_nodes, iter_lineages}
use maia.Pytree.Walk.ChainLaws.{iter_nodes_total, last_of, last_of-iter_lineages}
use maia.Pytree.Walk.LineageLaws.{Each, IsLineage, iter_lineages-IsLineage}
use maia.Pytree.Walk.Finder.{new_node_walker, call_finder}
use maia.Pytree.Walk.ChainWalker.{
  nodes, lineages, new_walkers, call_walkers, with_cache, iter_fresh, iter_with_parents,
  iter_terminal,
}
use maia.Pytree.Walk.Api.{
  Kwargs, get_node_from_predicate, get_nodes_from_predicate, iter_nodes_from_predicate,
  iter_nodes_from_predicates, get_nodes_from_predicates, walk_once, explore_or_default,
}

pub map_second-some :
    {A B : Type 0} (f : B → A) (o : Option B)
    → Option.map (λ (a : A × B). a.1) (Option.map (λ b. (f b, b)) o) ≡ o
map_second-some f none = refl
map_second-some f (some b) = refl

module _ {V : Type 0} where
  walk_once_lem :
      (caching : Bool) (k : Kwargs) (p : Node V → Bool) (root : Node V) {s : SearchKind}
      {x : Explore} {d : Depth}
      → check_search k.search ≡ ok s
      → check_explore (explore_or_default k.explore) ≡ ok x
      → check_depth k.depth ≡ ok d
      → walk_once caching k p root ≡ ok (parse x s d k.sort p root)
  unfolding new_walker call call_cached
  walk_once_lem true k p root h₁ h₂ h₃ = rw (h₁, h₂, h₃) (ap ok (map_second-some _ _))
  walk_once_lem false k p root h₁ h₂ h₃ = rw (h₁, h₂, h₃) (ap ok (map_second-some _ _))

  -- `iter_nodes_from_predicate` and `get_nodes_from_predicate`, which differ in the use of a cache,
  -- give the same nodes, or raise the same error.
  get_nodes_from_predicate-iter :
      (k : Kwargs) (p : Node V → Bool) (root : Node V)
      → get_nodes_from_predicate k p root ≡ iter_nodes_from_predicate k p root
  unfolding get_nodes_from_predicate iter_nodes_from_predicate new_walker call call_cached
  get_nodes_from_predicate-iter k p root = elim (Result-cases (check_search k.search)) [
    | inr (e, h) ↦ rw h refl
    | inl (x, h₁) ↦ elim (Result-cases (check_explore (explore_or_default k.explore))) [
      | inr (e, h) ↦ rw (h₁, h) refl
      | inl (y, h₂) ↦ elim (Result-cases (check_depth k.depth)) [
        | inr (e, h) ↦ rw (h₁, h₂, h) refl
        | inl (z, h₃) ↦
            walk_once_lem true k p root h₁ h₂ h₃ ∙ sym (walk_once_lem false k p root h₁ h₂ h₃)
      ]
    ]
  ]

  -- The searches for one node return the first of all the nodes, in the order of the search.
  find-head? :
      (s : SearchKind) (d : Depth) (o : Sort) (p : Node V → Bool) (root : Node V)
      → (r : List (Node V)) × (fresh_deep s d o p root ≡ some r)
        × (find s d o p root ≡ returns (head? r))
  unfolding fresh_deep find
  find-head? by_depth d o p root = elim (Bool-cases (unlimited d)) [
    | inl h ↦ (dfs o p root, simp h refl, simp h (ap returns (find_dfs-head? o p root)))
    | inr h ↦
        (range_dfs d o p root, simp h refl, simp h (ap returns (range_find_dfs-head? d o p root)))
  ]
  find-head? by_breadth d o p root = elim (Bool-cases (unlimited d)) [
    | inl h ↦ let (r, e, q) = find_bfs-head? o p root in (r, simp h e, simp h q)
    | inr h ↦ let (r, e, q) = range_find_bfs-head? d o p root in (r, simp h e, simp h q)
  ]

  abbrev pub first_found : Option (List (Node V)) → Search V
  first_found none = out_of_fuel
  first_found (some r) = returns (head? r)

  -- `get_node_from_predicate` without `explore` returns the first node that
  -- `get_nodes_from_predicate` gives with the same arguments and `explore='deep'`, and `None` if that
  -- list is empty; a wrong `search` or `depth` raises the same error in both.
  pub get_node_from_predicate-head? :
      (k : Kwargs) (p : Node V → Bool) (root : Node V)
      → k.explore ≡ none
      → get_node_from_predicate k p root
        ≡ get_nodes_from_predicate (record k { explore = some (text "deep") }) p root >>= λ found.
            ok (first_found found)
  unfolding get_node_from_predicate get_nodes_from_predicate new_node_walker call_finder new_walker
      check_explore maia.Base.text_eq parse find
  get_node_from_predicate-head? k p root h =
      let deep_k = record k { explore = some (text "deep") } in
      elim (Result-cases (check_search k.search)) [
        | inr (e, h₁) ↦ rw (h, h₁) refl
        | inl (x, h₁) ↦ elim (Result-cases (check_depth k.depth)) [
          | inr (e, h₃) ↦ rw (h, h₁, h₃) refl
          | inl (z, h₃) ↦
              let (r, e, q) = find-head? x z k.sort p root in
              rw (walk_once_lem true deep_k p root h₁ refl h₃, h, h₁, h₃, e, q) refl
        ]
      ]

  -- `iter_nodes_from_predicates` and `get_nodes_from_predicates` give the same answer, with the
  -- ancestors and without.
  get_nodes_from_predicates-iter :
      (o : Options) (ancestors : Bool) (ps : List (Node V → Bool)) (root : Node V)
      → get_nodes_from_predicates o ancestors ps root
        ≡ iter_nodes_from_predicates o ancestors ps root
  unfolding get_nodes_from_predicates iter_nodes_from_predicates call_walkers with_cache new_walkers
  get_nodes_from_predicates-iter o true ps root =
      ap ok (map_second-some _ _ ∙ sym (map_second-some _ _))
  get_nodes_from_predicates-iter o false ps root =
      ap ok (map_second-some _ _ ∙ sym (map_second-some _ _))

  lineages_total :
      (o : Options) (ps : List (Node V → Bool)) (root : Node V)
      → (ls : List (List (Node V))) × (iter_lineages o ps root ≡ some ls)
        × Each (IsLineage o ps root) ls
        × (iter_nodes o ps root ≡ some (map (last_of root) ls))
  lineages_total o ps root =
      let (r, e) = iter_nodes_total o ps root in
      let l = last_of-iter_lineages o ps root in
      elim (Option-cases (iter_lineages o ps root)) [
        | inl h ↦ let absurd : none ≡ some r = sym (ap (Option.map _) h) ∙ l ∙ e in ground arith
        | inr (ls, h) ↦ (ls, h, iter_lineages-IsLineage o ps root ls h, sym l ∙ ap (Option.map _) h)
      ]

  -- `get_nodes_from_predicates` ends. With the ancestors it gives lineages: one node for each
  -- predicate, the first one found under the root by the first predicate, and each other one found by
  -- its predicate under the node before it. Without them it gives the last nodes of these lineages,
  -- in the same order.
  pub get_nodes_from_predicates_lem :
      (o : Options) (ps : List (Node V → Bool)) (root : Node V)
      → (ls : List (List (Node V))) × (get_nodes_from_predicates o true ps root
          ≡ ok (some (lineages ls)))
        × Each (IsLineage o ps root) ls
        × (get_nodes_from_predicates o false ps root ≡ ok (some (nodes (map (last_of root) ls))))
  unfolding get_nodes_from_predicates call_walkers with_cache new_walkers iter_fresh iter_terminal
      iter_with_parents
  get_nodes_from_predicates_lem o ps root =
      let (ls, h, g, k) = lineages_total o ps root in (ls, rw h refl, g, rw k refl)
