-- ===== src/Pytree/Walk/PredicateLaws.antt =====
-- What `belongs_to_family` looks at.
use mathlib.Core.Path.{fun_ext, ap₂}
use maia.Base.{
  ◌≡◌, refl, ap, ◌∙◌, List, [], ◌∷◌, Bool, true, false, ◌&&◌, ◌||◌, Option, none, some,
  if◌then◌else◌, Text, text, text_eq, filter, any, head?, Bool-cases, inl, inr,
}
use maia.Base.Result.{ok, ◌>>=◌}
use maia.Pytree.Node.{Node, node, Children, nil, cons, to_list}
use maia.Pytree.Access.{is_valid_label, ends_with_t}
use maia.Pytree.Walk.Options.{Depth, forward, cond1, cond2}
use maia.Pytree.Walk.NodeParser.{range_find_dfs, range_find_below, range_find_children, returns}
use maia.Pytree.Walk.ShallowIterator.{
  shallow_range_dfs, shallow_range_dfs_below, shallow_range_dfs_children,
}
use maia.Pytree.Walk.Walker.{
  check_search, check_explore, check_depth, new_walker, call, parse, fresh_shallow,
}
use maia.Pytree.Walk.Finder.{new_node_walker, call_finder}
use maia.Pytree.Walk.Chains.{find}
use maia.Pytree.Walk.Api
use maia.Pytree.Walk.Predicate.{
  Libraries, by_text, match_str_label, auto_predicate, get_node_from_query, iter_nodes_from_query,
  near, value_is_family, any_family, found_family, belongs_to_family, decide_family,
}

-- The depth range of `depth=1`.
abbrev one_level : Depth
one_level = record { low = 0; high = some 1 }

module _ {V : Type 0} (p : Node V → Bool) where
  first_child :
      (cs : Children V)
      → range_find_children one_level forward p cs 1 ≡ head? (filter p (to_list cs))
  unfolding range_find_children cond2
  first_child nil = refl
  first_child (cons c cs) = elim (Bool-cases (p c)) [
    | inl e ↦ rw e refl
    | inr e ↦ rw e (first_child cs)
  ]

  matching_children :
      (cs : Children V)
      → shallow_range_dfs_children one_level forward p cs 1 ≡ filter p (to_list cs)
  unfolding shallow_range_dfs_children cond2
  matching_children nil = refl
  matching_children (cons c cs) = elim (Bool-cases (p c)) [
    | inl e ↦ rw e (ap (λ ns. c ∷ ns) (matching_children cs))
    | inr e ↦ rw e (matching_children cs)
  ]

abbrev pub has_label : {V : Type 0} → Text → Node V → Bool
has_label t (node n v cs l) = text_eq l t

module _ {V : Type 0} (lib : Libraries V) (t : Text) where
  -- The label is listed, and as a pattern for `fnmatch` it stands for itself.
  abbrev pub Literal : Type 0
  Literal = (lib.is_sids t ≡ true) × ((l : Text) → lib.fnmatch l t ≡ text_eq l t)

  match_str_label-has_label : Literal → match_str_label lib t ≡ has_label t
  unfolding match_str_label
  match_str_label-has_label (h, e) = fun_ext same
    where
      same : (n : Node V) → match_str_label lib t n ≡ has_label t n
      same (node n v cs l) = e l

  auto_predicate-has_label :
      is_valid_label lib.is_sids t true ≡ true
      → Literal
      → auto_predicate lib (by_text t) ≡ ok (has_label t)
  unfolding auto_predicate
  auto_predicate-has_label h e = rw h (ap ok (match_str_label-has_label e))

  find_labelled :
      (n : Text) (v : Option V) (cs : Children V) (l : Text)
      → text_eq l t ≡ false
      → Api.get_node_from_predicate (near lib) (has_label t) (node n v cs l)
        ≡ ok (returns (head? (filter (has_label t) (to_list cs))))
  unfolding Api.get_node_from_predicate new_node_walker check_search check_depth text_eq call_finder
      find range_find_dfs range_find_below cond1
  find_labelled n v cs l h = rw h (ap (λ o. ok (returns o)) (first_child (has_label t) cs))

  iter_labelled :
      (n : Text) (v : Option V) (cs : Children V) (l : Text)
      → text_eq l t ≡ false
      → Api.iter_nodes_from_predicate (near lib) (has_label t) (node n v cs l)
        ≡ ok (some (filter (has_label t) (to_list cs)))
  unfolding Api.iter_nodes_from_predicate new_walker check_search check_explore check_depth text_eq
      call parse fresh_shallow shallow_range_dfs shallow_range_dfs_below cond1
  iter_labelled n v cs l h = rw h (ap (λ ns. ok (some ns)) (matching_children (has_label t) cs))

  module _ (k : is_valid_label lib.is_sids t true ≡ true) (e : Literal) where
    find_child :
        (n : Text) (v : Option V) (cs : Children V) (l : Text)
        → text_eq l t ≡ false
        → get_node_from_query lib (near lib) (by_text t) (node n v cs l)
          ≡ ok (returns (head? (filter (has_label t) (to_list cs))))
    unfolding get_node_from_query
    find_child n v cs l h =
        ap (λ r. r >>= λ p. Api.get_node_from_predicate (near lib) p (node n v cs l))
          (auto_predicate-has_label k e)
        ∙ find_labelled n v cs l h

    iter_children :
        (n : Text) (v : Option V) (cs : Children V) (l : Text)
        → text_eq l t ≡ false
        → iter_nodes_from_query lib (near lib) (by_text t) (node n v cs l)
          ≡ ok (some (filter (has_label t) (to_list cs)))
    unfolding iter_nodes_from_query
    iter_children n v cs l h =
        ap (λ r. r >>= λ p. Api.iter_nodes_from_predicate (near lib) p (node n v cs l))
          (auto_predicate-has_label k e)
        ∙ iter_labelled n v cs l h

module _ {V : Type 0} (lib : Libraries V) where
  -- The value of the first of the nodes, if there is one.
  abbrev pub first_is : Text → Option (Node V) → Bool
  first_is family none = false
  first_is family (some n) = value_is_family lib family n

  found_family-first_is :
      (family : Text) (o : Option (Node V))
      → found_family lib family (returns o) ≡ first_is family o
  found_family-first_is family none = refl
  found_family-first_is family (some n) = refl

  any_family-any :
      (family : Text) (ns : List (Node V))
      → any_family lib family ns ≡ any (value_is_family lib family) ns
  any_family-any family [] = refl
  any_family-any family (n ∷ ns) = rw (any_family-any family ns) refl

  decided :
      (family : Text) (allow : Bool) (o : Option (Node V)) (ns : List (Node V))
      → decide_family lib family allow (ok (returns o)) (ok (some ns))
        ≡ ok (first_is family o || (allow && any (value_is_family lib family) ns))
  decided family allow o ns =
      rw (found_family-first_is family o, any_family-any family ns)
        (cases (first_is family o) allow _)
    where
      cases :
          (a b c : Bool)
          → (if a then ok true else if b then ok c else ok false) ≡ ok (a || (b && c))
      cases true b c = refl
      cases false true c = refl
      cases false false c = refl

  valid :
      (t : Text)
      → ends_with_t t ≡ true
      → lib.is_sids t ≡ true
      → is_valid_label lib.is_sids t true ≡ true
  unfolding is_valid_label
  valid t e h = rw (e, h) refl

  -- For a node that has none of the two labels itself, `belongs_to_family` raises nothing. It tests
  -- the value of the first child with the label `FamilyName_t`, and, if `allow_additional`, those
  -- of all the children with the label `AdditionalFamilyName_t`; it looks no deeper. The
  -- build's list has the two labels, and to `fnmatch` they stand for themselves.
  pub belongs_to_family_lem :
      (family : Text) (allow_additional : Bool) (n : Text) (v : Option V) (cs : Children V)
      (l : Text)
      → Literal lib (text "FamilyName_t")
      → Literal lib (text "AdditionalFamilyName_t")
      → text_eq l (text "FamilyName_t") ≡ false
      → text_eq l (text "AdditionalFamilyName_t") ≡ false
      → belongs_to_family lib family allow_additional (node n v cs l)
        ≡ ok (
            first_is family (head? (filter (has_label (text "FamilyName_t")) (to_list cs)))
            || (allow_additional
                && any
                    (value_is_family lib family)
                    (filter (has_label (text "AdditionalFamilyName_t")) (to_list cs))))
  unfolding belongs_to_family ends_with_t text_eq
  belongs_to_family_lem family allow n v cs l e₁ e₂ h₁ h₂ =
      ap₂ (decide_family lib family allow)
        (find_child lib (text "FamilyName_t") (valid (text "FamilyName_t") refl e₁.0) e₁ n v cs l
          h₁)
        (iter_children lib (text "AdditionalFamilyName_t")
          (valid (text "AdditionalFamilyName_t") refl e₂.0) e₂ n v cs l h₂)
      ∙ decided family allow _ _
