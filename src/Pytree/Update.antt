-- ===== src/Pytree/Update.antt =====
-- `update_child` of `maia/pytree/node/create.py` and `maia/pytree/node/name_utils.py`, which change a
-- tree in place: each gives the node afterwards, also if it raises.
use maia.Base.{
  ℕ, suc, ltb, List, [], ◌∷◌, Bool, true, false, Option, none, some, if◌then◌else◌, length, Text,
  text, text_mem,
}
use mathlib.Core.Option
use maia.Base.Result.{Result, ok, raised}
use maia.Pytree.Node.{Node, node, Children, nil, cons, get_name}
use maia.Pytree.Access.{Outcome, set_name, update_node, new_node}

module _ {V : Type 0} where
  -- The children with the first that satisfies the test changed, and what the change gave.
  unfoldable pub in_first :
      (Node V → Bool) → (Node V → Outcome V) → Children V → Option (Children V × Result Bool)
  in_first test change nil = none
  in_first test change (cons c cs) =
      let rest = in_first test change cs in
      if test c
      then some (cons (change c).0 cs, (change c).1)
      else Option.map (λ r. (cons c r.0, r.1)) rest

  unfoldable pub in_last : (Node V → Outcome V) → Children V → Children V × Result Bool
  in_last change nil = (nil, ok false)
  in_last change (cons c nil) = (cons (change c).0 nil, (change c).1)
  in_last change (cons c (cons d cs)) = let (ds, r) = in_last change (cons d cs) in (cons c ds, r)

  abbrev pub change_created : (Node V → Outcome V) → Node V → Outcome V
  change_created change (node n v cs l) = let (ds, r) = in_last change cs in (node n v ds l, r)

  -- The created child is the last of its parent.
  abbrev pub after_creation :
      (Node V → Outcome V) → Node V → Result (Node V × Option (Node V)) → Outcome V
  after_creation change parent (raised e) = (parent, raised e)
  after_creation change parent (ok (c, none)) = (parent, ok false)
  after_creation change parent (ok (c, some parent')) = change_created change parent'

  -- `matches name pattern` is the test of `get_child_from_name`, by the library `fnmatch`.
  unfoldable pub update_child :
      (Text → Bool)
      → (Text → Text → Bool)
      → Node V
      → Text
      → Option Text
      → Option (Option V)
      → Option (List (Node V))
      → Outcome V
  unfolding in_first in_last update_node new_node
  update_child is_sids matches (node n v cs l) name label value children =
      let parent : Node V = node n v cs l in
      let change = update_node is_sids none label value children in
      elim (in_first (λ c. matches (get_name c) name) change cs) [
        | some (ds, r) ↦ (node n v ds l, r)
        | none ↦
            after_creation change parent
              (new_node is_sids name (text "UserDefined_t") none [] (some parent))
      ]

abbrev pub can_shorten : Option (List Text) → Text → Bool
can_shorten none label = true
can_shorten (some labels) label = text_mem label labels

-- `isupper` is the parameter `is_upper`.
module _ (is_upper : ℕ → Bool) where
  -- The loop over the letters: after a capital it keeps three more.
  unfoldable pub shortened : ℕ → Text → Text
  shortened cnt [] = []
  shortened cnt (c ∷ name) =
      let from_capital = shortened 0 name in
      let from_other = shortened (suc cnt) name in
      if is_upper c
      then c ∷ from_capital
      else if ltb (suc cnt) 4
      then c ∷ from_other
      else from_other

module _ {V : Type 0} (is_upper : ℕ → Bool) where
  unfoldable pub shorten_name : Option (List Text) → Node V → Outcome V
  unfolding shortened set_name
  shorten_name labels (node n v cs l) =
      if can_shorten labels l
      then if ltb 32 (length n)
        then set_name (shortened is_upper 0 n) (node n v cs l)
        else (node n v cs l, ok false)
      else (node n v cs l, ok false)

  -- The children are visited if the name of the node could be set.
  abbrev pub with_children : Outcome V → (Children V × Result Bool) → Outcome V
  with_children (n, raised e) r = (n, raised e)
  with_children (node n v _ l, ok w) (cs, r) = (node n v cs l, r)

  abbrev pub next_child :
      Children V → Outcome V → (Children V × Result Bool) → Children V × Result Bool
  next_child cs (c, raised e) r = (cons c cs, raised e)
  next_child cs (c, ok w) (ds, r) = (cons c ds, r)

  unfoldable mutual
    unfolding shorten_name

    pub shorten_names : Option (List Text) → Node V → Outcome V
    shorten_names labels (node n v cs l) =
        with_children (shorten_name labels (node n v cs l)) (shorten_each labels cs)

    pub shorten_each : Option (List Text) → Children V → Children V × Result Bool
    shorten_each labels nil = (nil, ok false)
    shorten_each labels (cons c cs) =
        next_child cs (shorten_names labels c) (shorten_each labels cs)

  unfoldable pub shorten_field_names : Node V → Outcome V
  shorten_field_names = shorten_names (some (text "DataArray_t" ∷ []))
