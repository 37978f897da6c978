-- ===== src/Graph/Zip.antt =====
-- Two CGNS trees as one graph: `pytree_zip_adaptor` of `maia/pytree/graph/cgns.py`.
use maia.Base.{
  ◌==◌, List, [], ◌∷◌, ◌++◌, Bool, true, false, Option, none, some, if◌then◌else◌, Text, text_eq,
  ltb,
}
use maia.Pytree.Node.{Node, get_name, get_children, to_list}
use maia.Utils.Sequences.{set_intersection_difference}
use maia.Graph.Stack.{Graph}

-- `<` on texts.
unfoldable pub text_lt : Text → Text → Bool
text_lt s [] = false
text_lt [] (y ∷ ys) = true
text_lt (x ∷ xs) (y ∷ ys) = if x == y then text_lt xs ys else ltb x y

module _ {A : Type 0} (lt : A → A → Bool) where
  unfoldable pub insert : A → List A → List A
  insert a [] = a ∷ []
  insert a (b ∷ l) = if lt b a then b ∷ insert a l else a ∷ b ∷ l

  -- `sorted(l)`, which keeps the order of elements that are not less than each other.
  unfoldable pub sorted : List A → List A
  unfolding insert
  sorted [] = []
  sorted (a ∷ l) = insert a (sorted l)

-- The two nodes at a place, either of which may be `None`.
abbrev pub Pair : Type 0 → Type 0
Pair V = Option (Node V) × Option (Node V)

module _ {V : Type 0} where
  unfoldable pub less_by_name : Node V → Node V → Bool
  unfolding text_lt
  less_by_name x y = text_lt (get_name x) (get_name y)

  -- `[inter_x[i], inter_y[i]]` for each `i`; the two lists are of one length.
  abbrev pub both : List (Node V) → List (Node V) → List (Pair V)
  both [] ys = []
  both (x ∷ xs) [] = []
  both (x ∷ xs) (y ∷ ys) = (some x, some y) ∷ both xs ys

  -- `[_value_or_none(diff_x, i), _value_or_none(diff_y, i)]` for each `i` up to the longer length.
  abbrev pub either : List (Node V) → List (Node V) → List (Pair V)
  either [] [] = []
  either [] (y ∷ ys) = (none, some y) ∷ either [] ys
  either (x ∷ xs) [] = (some x, none) ∷ either xs []
  either (x ∷ xs) (y ∷ ys) = (some x, some y) ∷ either xs ys

  -- `_zip_lists`
  unfoldable pub zip_lists : List (Node V) → List (Node V) → List (Pair V)
  unfolding less_by_name set_intersection_difference
  zip_lists xs ys =
      let s = set_intersection_difference less_by_name xs ys in
      both s.inter_x s.inter_y ++ either s.diff_x s.diff_y

  module _ (rest : Node V → Node V → Bool) where
    -- `<` on nodes, which are lists: names come first. For two nodes with one name it is a matter
    -- of the rest of the lists, the first of which are numpy arrays.
    unfoldable pub node_lt : Node V → Node V → Bool
    unfolding less_by_name
    node_lt x y = if text_eq (get_name x) (get_name y) then rest x y else less_by_name x y

    -- `_get_sorted_children`
    unfoldable pub get_sorted_children : Option (Node V) → List (Node V)
    unfolding sorted node_lt
    get_sorted_children none = []
    get_sorted_children (some n) = sorted node_lt (to_list (get_children n))

    unfoldable pub pytree_zip_adaptor : Pair V → Graph (Pair V)
    unfolding get_sorted_children zip_lists
    pytree_zip_adaptor ts = record {
      roots = ts ∷ [];
      children = λ ns. zip_lists (get_sorted_children ns.0) (get_sorted_children ns.1);
    }
