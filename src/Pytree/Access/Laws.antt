-- ===== src/Pytree/Access/Laws.antt =====
-- Children keep distinct names, and a call that raises changes nothing but what it says.
use maia.Base.{
  ◌≡◌, refl, ap, ◌∙◌, List, [], ◌∷◌, ◌++◌, Bool, true, false, not, ◌&&◌, ◌||◌, Option, none, some,
  if◌then◌else◌, arith, Bool-cases, inl, inr, Text, text_mem, text_eq, map, text_eq_comm,
}
use maia.Base.Result.{ok, raised, value_error, runtime_error}
use maia.Pytree.Node.{Node, node, Children, nil, cons, get_name, get_children, to_list}
use maia.Pytree.Access.{
  is_valid_name, is_valid_label, set_name, set_value, set_label, append_child, get_names, add_child,
  attach, add_children, restore, set_children, new_node,
}

module _ {V : Type 0} where
  -- No two children have one name.
  abbrev pub NodupNames : Children V → Type 0
  NodupNames nil = Unit
  NodupNames (cons c cs) = (text_mem (get_name c) (get_names cs) ≡ false) × NodupNames cs

  to_list-append_child :
      (cs : Children V) (c : Node V) → to_list (append_child cs c) ≡ to_list cs ++ (c ∷ [])
  unfolding append_child
  to_list-append_child nil c = refl
  to_list-append_child (cons d cs) c =
      ap (λ (xs : List (Node V)). d ∷ xs) (to_list-append_child cs c)

  text_mem-get_names-append_child :
      (name : Text) (cs : Children V) (c : Node V)
      → text_mem name (get_names (append_child cs c))
        ≡ (text_mem name (get_names cs) || text_eq name (get_name c))
  unfolding append_child get_names
  text_mem-get_names-append_child name nil c = ground arith
  text_mem-get_names-append_child name (cons d cs) c =
      ground (arith, text_mem-get_names-append_child name cs c)

  append_child-NodupNames :
      (cs : Children V) (c : Node V)
      → NodupNames cs
      → text_mem (get_name c) (get_names cs) ≡ false
      → NodupNames (append_child cs c)
  unfolding append_child get_names
  append_child-NodupNames nil c u h = (refl, tt)
  append_child-NodupNames (cons d cs) c u h = (
    ground (
      arith,
      text_mem-get_names-append_child (get_name d) cs c,
      text_eq_comm (get_name d) (get_name c),
    ),
    append_child-NodupNames cs c u.1 (ground arith),
  )

  -- `add_child` keeps the names of the children distinct, whether or not it raises.
  add_child-NodupNames :
      (parent : Node V) (child : Option (Node V))
      → NodupNames (get_children parent)
      → NodupNames (get_children (add_child parent child).0)
  unfolding add_child
  add_child-NodupNames (node n v cs l) none u = u
  add_child-NodupNames (node n v cs l) (some c) u =
      elim (Bool-cases (text_mem (get_name c) (get_names cs))) [
        | inl e ↦ rw e u
        | inr e ↦ rw e (append_child-NodupNames cs c u e)
      ]

  -- No two nodes of the list have one name.
  abbrev pub distinct_names : List (Node V) → Bool
  distinct_names [] = true
  distinct_names (c ∷ cs) = not (text_mem (get_name c) (map get_name cs)) && distinct_names cs

  -- The list as children.
  abbrev pub from_list : List (Node V) → Children V
  from_list [] = nil
  from_list (c ∷ cs) = cons c (from_list cs)

  abbrev extend : Children V → List (Node V) → Children V
  extend cs [] = cs
  extend cs (x ∷ xs) = extend (append_child cs x) xs

  abbrev clash : Children V → List (Node V) → Bool
  clash cs [] = false
  clash cs (x ∷ xs) = text_mem (get_name x) (get_names cs) || clash cs xs

  abbrev fresh : Children V → List (Node V) → Bool
  fresh cs [] = true
  fresh cs (x ∷ xs) =
      let rest = fresh (append_child cs x) xs in
      if text_mem (get_name x) (get_names cs) then false else rest

  clash-append_child :
      (cs : Children V) (c : Node V) (xs : List (Node V))
      → clash (append_child cs c) xs ≡ (clash cs xs || text_mem (get_name c) (map get_name xs))
  clash-append_child cs c [] = refl
  clash-append_child cs c (x ∷ xs) = ground (
    arith,
    text_mem-get_names-append_child (get_name x) cs c,
    text_eq_comm (get_name x) (get_name c),
    clash-append_child cs c xs,
  )

  fresh-eq-distinct_names :
      (cs : Children V) (xs : List (Node V))
      → fresh cs xs ≡ (not (clash cs xs) && distinct_names xs)
  fresh-eq-distinct_names cs [] = refl
  fresh-eq-distinct_names cs (x ∷ xs) =
      ground (arith, fresh-eq-distinct_names (append_child cs x) xs, clash-append_child cs x xs)

  clash-nil : (xs : List (Node V)) → clash nil xs ≡ false
  unfolding get_names
  clash-nil [] = refl
  clash-nil (x ∷ xs) = clash-nil xs

  extend-append :
      (cs : Children V) (x : Node V) (xs : List (Node V))
      → extend (cons x cs) xs ≡ cons x (extend cs xs)
  unfolding append_child
  extend-append cs x [] = refl
  extend-append cs x (y ∷ xs) = extend-append (append_child cs y) x xs

  extend-nil : (xs : List (Node V)) → extend nil xs ≡ from_list xs
  unfolding append_child
  extend-nil [] = refl
  extend-nil (x ∷ xs) = extend-append nil x xs ∙ rw (extend-nil xs)

  restore-add_children :
      (n : Text) (v : Option V) (cs : Children V) (l : Text) (old : Node V) (xs : List (Node V))
      → restore old (add_children (node n v cs l) xs) ≡ (
          if fresh cs xs
          then (node n v (extend cs xs) l, ok false)
          else (old, raised runtime_error))
  unfolding add_children add_child
  restore-add_children n v cs l old [] = refl
  restore-add_children n v cs l old (x ∷ xs) =
      elim (Bool-cases (text_mem (get_name x) (get_names cs))) [
        | inl e ↦ rw e refl
        | inr e ↦ rw e (restore-add_children n v (append_child cs x) l old xs)
      ]

  -- `set_children` gives the node the listed children, in order, if their names are distinct;
  -- otherwise it raises, and the node has its old children back.
  pub set_children_lem :
      (n : Text) (v : Option V) (cs : Children V) (l : Text) (xs : List (Node V))
      → set_children xs (node n v cs l) ≡ (
          if distinct_names xs
          then (node n v (from_list xs) l, ok false)
          else (node n v cs l, raised runtime_error))
  unfolding set_children
  set_children_lem n v cs l xs =
      restore-add_children n v nil l (node n v cs l) xs
      ∙ rw (fresh-eq-distinct_names nil xs, clash-nil xs, extend-nil xs)

  -- `new_node` without a parent gives the node that its arguments describe exactly if the name
  -- and the label are valid and the names of the children are distinct. Otherwise it raises
  -- `ValueError` for the name or the label, and `RuntimeError` for the children.
  pub new_node_lem :
      (is_sids : Text → Bool) (name label : Text) (value : Option V) (xs : List (Node V))
      → new_node is_sids name label value xs none ≡ (
          if is_valid_name name false && is_valid_label is_sids label false
          then (if distinct_names xs
              then ok (node name value (from_list xs) label, none)
              else raised runtime_error)
          else raised value_error)
  unfolding new_node attach set_name set_label set_value
  new_node_lem is_sids name label value xs = elim (Bool-cases (is_valid_name name false)) [
    | inr e ↦ rw e refl
    | inl e ↦ elim (Bool-cases (is_valid_label is_sids label false)) [
      | inr k ↦ rw (e, k) refl
      | inl k ↦
          rw (e, k, set_children_lem name value nil label xs)
            (elim (Bool-cases (distinct_names xs)) [ inl d ↦ rw d refl | inr d ↦ rw d refl ])
    ]
  ]
