-- ===== src/Sids/Arrays.antt =====
-- What `maia/pytree/sids/node_inspect.py` and `maia/pytree/node/presets.py` use of numpy's arrays,
-- and the searches among the children of a node that they call. The numbers in the arrays are
-- not negative.
use mathlib.Core.Option
use maia.Base.{
  ℕ, List, [], ◌∷◌, Bool, false, Option, none, some, if◌then◌else◌, get_elem?, filter, Text,
  text_eq, text_mem,
}
use maia.Base.Int.{ℤ}
use maia.Base.Result.{Result, ok, raised, type_error, index_error, label_not_equal, ◌>>=◌}
use maia.Numbering.Block.{Integers}
use maia.Pytree.Node.{Node, node, Children, nil, cons, get_children, to_list}
use maia.Pytree.Walk.Predicate.{Libraries, match_name, match_str_label}

pub record Arrays (V : Type 0) : Type 0 where
  -- The text of an array of characters.
  pub text_of : V → Option Text
  -- The entries of an array of integers with one dimension, and the rows of one with two.
  pub items : V → Option (List ℕ)
  pub rows : V → Option (List (List ℕ))
  -- The integers of the array.
  pub integers : V → Integers
  -- `_convert_value` of a text and of a list of numbers.
  pub from_text : Text → V
  pub from_items : List ℕ → V
  pub ndim : V → ℕ
  -- `value.reshape((-1,2))`, which fails for an odd number of entries.
  pub reshape_pairs : V → Option V
  -- `value.size`
  pub array_size : V → ℕ
  -- `value.shape[1]` of an array with two dimensions.
  pub width : V → Option ℕ
  -- The entries of an array of integers with one dimension, which may be negative here.
  pub signed_items : V → Option (List ℤ)

abbrev pub get_label : {V : Type 0} → Node V → Text
get_label (node n v cs l) = l

abbrev pub raw_value : {V : Type 0} → Node V → Option V
raw_value (node n v cs l) = v

-- `not None`, or the error of an operation on `None`.
abbrev pub not_none : {A : Type 0} → Option A → Result A
not_none none = raised type_error
not_none (some a) = ok a

abbrev pub in_range : {A : Type 0} → Option A → Result A
in_range none = raised index_error
in_range (some a) = ok a

-- `[f(x) for x in xs]`, where a call may raise.
unfoldable pub each {ℓ} : {A : Type ℓ} {B : Type 0} → (A → Result B) → List A → Result (List B)
each f [] = ok []
each f (x ∷ xs) = f x >>= λ b. each f xs >>= λ bs. ok (b ∷ bs)

module _ {V : Type 0} where
  -- The decorators `check_is_label` and `check_in_labels`.
  abbrev pub check_is_label : {A : Type 0} → Text → Node V → Result A → Result A
  check_is_label label n body = if text_eq (get_label n) label then body else raised label_not_equal

  abbrev pub check_in_labels : {A : Type 0} → List Text → Node V → Result A → Result A
  check_in_labels labels n body =
      if text_mem (get_label n) labels then body else raised label_not_equal

  abbrev pub first_of_children : (Node V → Bool) → Children V → Option (Node V)
  first_of_children p nil = none
  first_of_children p (cons c cs) = if p c then some c else first_of_children p cs

  -- `get_child_from_predicate` and `get_children_from_predicate`
  unfoldable pub get_child : (Node V → Bool) → Node V → Option (Node V)
  get_child p n = first_of_children p (get_children n)

  unfoldable pub get_children_from : (Node V → Bool) → Node V → List (Node V)
  get_children_from p n = filter p (to_list (get_children n))

module _ {V : Type 0} (lib : Libraries V) where
  unfoldable pub get_child_from_name : Node V → Text → Option (Node V)
  unfolding get_child match_name
  get_child_from_name n name = get_child (match_name lib name) n

  unfoldable pub get_child_from_label : Node V → Text → Option (Node V)
  unfolding get_child match_str_label
  get_child_from_label n label = get_child (match_str_label lib label) n

  unfoldable pub get_children_from_label : Node V → Text → List (Node V)
  unfolding get_children_from match_str_label
  get_children_from_label n label = get_children_from (match_str_label lib label) n

module _ {V : Type 0} (arr : Arrays V) where
  -- `get_value(n)`, where the texts are looked at.
  unfoldable pub get_text : Node V → Option Text
  get_text (node n v cs l) = Option.bind v arr.text_of

  -- `get_value(n) == t`
  abbrev pub value_is_text : Option Text → Text → Bool
  value_is_text none t = false
  value_is_text (some s) t = text_eq s t

  -- `value[i]` of an array with one dimension.
  unfoldable pub entry : Option V → ℕ → Result ℕ
  entry v i = not_none (Option.bind v arr.items) >>= λ ns. in_range (get_elem? ns i)

  -- `value[:,j]`
  unfoldable pub column : Option V → ℕ → Result (List ℕ)
  unfolding each
  column none j = raised type_error
  column (some v) j = in_range (arr.rows v) >>= each (λ (row : List ℕ). in_range (get_elem? row j))
