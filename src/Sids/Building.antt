-- ===== src/Sids/Building.antt =====
-- How the presets of `maia/pytree/node/presets.py` build a node: they create it, attach it to its
-- parent, and then go on to change it in place, so that what is added to it appears in the parent
-- too, also if a later statement raises.
use mathlib.Core.Option
use maia.Base.{List, [], ◌∷◌, Bool, true, false, not, ◌||◌, Option, none, some, Text, text_mem}
use maia.Base.Result.{Result, ok, raised, assertion_error, ◌>>=◌}
use maia.Pytree.Node.{Node}
use maia.Pytree.Access.{Outcome, is_valid_name, new_node}
use maia.Pytree.Update.{in_last, change_created}
use maia.Sids.Arrays.{get_label}

-- The parent afterwards, if there is one, and the node with whether there was a warning, about the
-- label of a parent or a name of more than 32 characters, or what was raised.
abbrev pub Built : Type 0 → Type 0
Built V = Option (Node V) × Result (Node V × Bool)

-- What is done to a node: the node afterwards.
abbrev pub Step : Type 0 → Type 0
Step V = Node V → Outcome V

-- `set_name` warns of the name.
unfoldable pub is_long : Text → Bool
unfolding is_valid_name
is_long name = not (is_valid_name name true)

abbrev pub is_none : {A : Type 0} → Option A → Bool
is_none none = true
is_none (some a) = false

module _ {V : Type 0} where
  -- `_check_parent_label`: whether it warns.
  unfoldable pub check_parent_label : Option (Node V) → List Text → Bool
  check_parent_label none allowed_list = false
  check_parent_label (some parent) allowed_list = not (text_mem (get_label parent) allowed_list)

  abbrev from_creation : Text → Option (Node V) → Result (Node V × Option (Node V)) → Built V
  from_creation name parent (raised e) = (parent, raised e)
  from_creation name parent (ok (n, parent')) = (parent', ok (n, is_long name))

  -- `new_node(name, label, value, children, parent)`, with the warning of `set_name`.
  unfoldable pub create :
      (Text → Bool) → Text → Text → Option V → List (Node V) → Option (Node V) → Built V
  unfolding new_node
  create is_sids name label value children parent =
      from_creation name parent (new_node is_sids name label value children parent)

  -- The creation, and then the test of the label of the parent.
  unfoldable pub checked : Option (Node V) → List Text → Built V → Built V
  unfolding check_parent_label
  checked parent allowed_list (parent', r) =
      (parent', r >>= λ c. ok (c.0, c.1 || check_parent_label parent allowed_list))

  -- The statements on the created node.
  unfoldable pub grown : Built V → Step V → Built V
  unfolding in_last
  grown (parent, raised e) step = (parent, raised e)
  grown (parent, ok (n, w)) step = (
    Option.map (λ p. (change_created step p).0) parent,
    (step n).1 >>= λ w'. ok ((step n).0, w || w'),
  )

  abbrev parent_or : Node V → Option (Node V) → Node V
  parent_or n none = n
  parent_or n (some n') = n'

  -- A preset that is called with the node as `parent`.
  abbrev pub under : (Option (Node V) → Built V) → Step V
  under preset n = let (n', r) = preset (some n) in (parent_or n n', r >>= λ c. ok c.1)

  -- `if a is not None: …`
  abbrev pub if_given : {A : Type 0} → Option A → (A → Step V) → Step V
  if_given none f n = (n, ok false)
  if_given (some a) f n = f a n

  abbrev pub after_assert : Bool → Step V → Step V
  after_assert false step n = (n, raised assertion_error)
  after_assert true step n = step n

  abbrev pub and_step : Outcome V → Step V → Outcome V
  and_step (n, raised e) step = (n, raised e)
  and_step (n, ok w) step = let (n', r) = step n in (n', r >>= λ w'. ok (w || w'))

  -- One statement after the other.
  unfoldable pub steps : List (Step V) → Step V
  steps [] n = (n, ok false)
  steps (s ∷ ss) n = and_step (s n) (steps ss)

  -- `for field in fields: …`
  unfoldable pub for_each : {A : Type 0} → (A → Step V) → List A → Step V
  for_each f [] n = (n, ok false)
  for_each f (a ∷ xs) n = and_step (f a n) (for_each f xs)
