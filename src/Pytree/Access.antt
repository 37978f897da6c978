-- ===== src/Pytree/Access.antt =====
-- `maia/pytree/node/check.py`, `access.py` and `create.py`: nodes are built and changed through
-- functions that check names and labels. A function that changes a node returns the node
-- afterwards, with what it returns or raises. Values are taken as arrays that need no conversion,
-- and the texts of warnings and errors are not kept.
pub mod Laws
pub mod Copies
use maia.Base.{
  ℕ, leb, ltb, List, [], ◌∷◌, Bool, true, false, not, ◌&&◌, ◌||◌, Option, none, some, length, any,
  map, if◌then◌else◌,
}
use maia.Base.{Text, text, text_eq, text_mem, has_code}
use maia.Base.Result.{Result, ok, raised, value_error, runtime_error, ◌>>=◌}
use mathlib.Core.Option
use maia.Pytree.Node.{Node, node, Children, nil, cons, get_name, get_children, to_list}

-- `is_valid_name`, on texts.
unfoldable pub is_valid_name : Text → Bool → Bool
is_valid_name name check_len =
    if not (text_mem name (text "" ∷ text "." ∷ text ".." ∷ [])) && not (has_code b'/' name)
    then (if check_len then leb (length name) 32 else true)
    else false

-- `label.endswith('_t')`
unfoldable pub ends_with_t : Text → Bool
ends_with_t [] = false
ends_with_t (c ∷ cs) = text_eq (c ∷ cs) (text "_t") || ends_with_t cs

abbrev pub legacy_labels : List Text
legacy_labels =
    text "\"int[1+...+IndexDimension]\"" ∷ text "\"int[IndexDimension]\"" ∷ text "\"int\"" ∷ []

abbrev pub additional_labels : List Text
additional_labels =
    text "DiffusionModel_t"
    ∷ text "Transform_t"
    ∷ text "InwardNormalIndex_t"
    ∷ text "EquationDimension_t"
    ∷ []

-- The members of `CGK.Label` come from the build, so that they are a parameter.
module _ (is_sids : Text → Bool) where
  -- `is_valid_label`, on texts.
  unfoldable pub is_valid_label : Text → Bool → Bool
  unfolding ends_with_t
  is_valid_label label only_sids =
      if ends_with_t label || text_mem label legacy_labels
      then (if only_sids
          then is_sids label || text_mem label legacy_labels || text_mem label additional_labels
          else true)
      else false

-- A node afterwards, and whether the call warned, or what it raised.
abbrev pub Outcome : Type 0 → Type 0
Outcome V = Node V × Result Bool

module _ {V : Type 0} where
  -- `set_name`
  unfoldable pub set_name : Text → Node V → Outcome V
  unfolding is_valid_name
  set_name name (node n v cs l) =
      if is_valid_name name false
      then (node name v cs l, ok (not (is_valid_name name true)))
      else (node n v cs l, raised value_error)

  -- `set_value`
  unfoldable pub set_value : Option V → Node V → Outcome V
  set_value value (node n v cs l) = (node n value cs l, ok false)

  -- `set_label`
  unfoldable pub set_label : (Text → Bool) → Text → Node V → Outcome V
  unfolding is_valid_label
  set_label is_sids label (node n v cs l) =
      if is_valid_label is_sids label false
      then (node n v cs label, ok (not (is_valid_label is_sids label true)))
      else (node n v cs l, raised value_error)

  -- `node[2].append(child)`
  unfoldable pub append_child : Children V → Node V → Children V
  append_child nil child = cons child nil
  append_child (cons c cs) child = cons c (append_child cs child)

  -- `get_names`
  unfoldable pub get_names : Children V → List Text
  get_names nil = []
  get_names (cons c cs) = get_name c ∷ get_names cs

  -- `add_child`
  unfoldable pub add_child : Node V → Option (Node V) → Outcome V
  unfolding append_child get_names
  add_child (node n v cs l) none = (node n v cs l, ok false)
  add_child (node n v cs l) (some child) =
      if text_mem (get_name child) (get_names cs)
      then (node n v cs l, raised runtime_error)
      else (node n v (append_child cs child) l, ok false)

  -- Go on with the node unless a step raised.
  abbrev pub and_then : Outcome V → (Node V → Outcome V) → Outcome V
  and_then (n, ok w) k = k n
  and_then (n, raised e) k = (n, raised e)

  abbrev pub attached : Node V → Outcome V → Result (Node V × Option (Node V))
  attached n (parent', ok w) = ok (n, some parent')
  attached n (parent', raised e) = raised e

  -- `if parent is not None: add_child(parent, node)`, then `return node`.
  unfoldable pub attach : Outcome V → Option (Node V) → Result (Node V × Option (Node V))
  unfolding add_child
  attach (n, raised e) parent = raised e
  attach (n, ok w) none = ok (n, none)
  attach (n, ok w) (some parent) = attached n (add_child parent (some n))

  -- The loop of `set_children`, which stops at the first child that cannot be added.
  unfoldable pub add_children : Node V → List (Node V) → Outcome V
  unfolding add_child
  add_children parent [] = (parent, ok false)
  add_children parent (c ∷ cs) =
      and_then (add_child parent (some c)) (λ parent'. add_children parent' cs)

  -- The `except` clause of `set_children`.
  abbrev pub restore : Node V → Outcome V → Outcome V
  restore old (parent, ok w) = (parent, ok w)
  restore old (parent, raised e) = (old, raised e)

  -- `set_children`: if a child cannot be added, the old children come back.
  unfoldable pub set_children : List (Node V) → Node V → Outcome V
  unfolding add_children
  set_children children (node n v cs l) =
      restore (node n v cs l) (add_children (node n v nil l) children)

  -- An argument that may be `UNSET`.
  abbrev pub if_set : {A : Type 0} → Option A → (A → Node V → Outcome V) → Node V → Outcome V
  if_set none f parent = (parent, ok false)
  if_set (some a) f parent = f a parent

  -- `update_node`
  unfoldable pub update_node :
      (Text → Bool)
      → Option Text
      → Option Text
      → Option (Option V)
      → Option (List (Node V))
      → Node V
      → Outcome V
  unfolding set_name set_label set_value set_children
  update_node is_sids name label value children n = and_then (if_set name set_name n) λ n₁.
      and_then (if_set label (set_label is_sids) n₁)
        λ n₂. and_then (if_set value set_value n₂) λ n₃. if_set children set_children n₃

  -- The node that `new_node` starts from.
  abbrev pub default_node : Node V
  default_node = node (text "Node") none nil (text "UserDefined_t")

  -- `new_node`: the created node and its parent afterwards. The warning of `set_name` about a long name
  -- is not kept; `Sids.Building.create` gives it.
  unfoldable pub new_node :
      (Text → Bool)
      → Text
      → Text
      → Option V
      → List (Node V)
      → Option (Node V)
      → Result (Node V × Option (Node V))
  unfolding update_node
  new_node is_sids name label value children parent =
      attach
        (update_node is_sids (some name) (some label) (some value) (some children) default_node)
        parent

  -- `new_child`
  unfoldable pub new_child :
      (Text → Bool)
      → Node V
      → Text
      → Text
      → Option V
      → List (Node V)
      → Result (Node V × Option (Node V))
  unfolding new_node
  new_child is_sids parent name label value children =
      new_node is_sids name label value children (some parent)

  -- `shallow_copy`: new lists, the same arrays.
  unfoldable mutual
    pub shallow_copy : Node V → Node V
    shallow_copy (node n v cs l) = node n v (shallow_copies cs nil) l

    -- The loop that appends the copies to `out[2]`.
    pub shallow_copies : Children V → Children V → Children V
    shallow_copies nil out = out
    shallow_copies (cons c cs) out = shallow_copies cs (append_child out (shallow_copy c))

-- `deep_copy`, where `copy` is `array.copy`. The copy is built by `new_node`, with its checks.
module _ {V : Type 0} (is_sids : Text → Bool) (copy : V → V) where
  -- `out[1] = copy(value)` and `out[2].append(child)`
  abbrev pub fill : Option V → Node V → Node V
  fill v (node n _ cs l) = node n (Option.map copy v) cs l

  abbrev pub push : Node V → Node V → Node V
  push (node n v cs l) child = node n v (append_child cs child) l

  unfoldable mutual
    pub deep_copy : Node V → Result (Node V)
    deep_copy (node n v cs l) =
        new_node is_sids n l none [] none >>= λ created. deep_copies cs (fill v created.0)

    pub deep_copies : Children V → Node V → Result (Node V)
    deep_copies nil out = ok out
    deep_copies (cons c cs) out = deep_copy c >>= λ c'. deep_copies cs (push out c')
