-- ===== src/Graph/Compare.antt =====
-- The comparison of two trees in `maia/pytree/compare.py`. What numpy says of two values is a
-- parameter.
use mathlib.Core.Option
use maia.Base.{
  ℕ, Bool, true, false, ◌&&◌, not, Option, none, some, if◌then◌else◌, Text, text, text_eq, take,
}
use maia.Base.Result.{Result, ok, raised, type_error, ◌>>=◌}
use maia.Pytree.Node.{Node, node}
use maia.Graph.Stack.{Step, into, out}
use maia.Graph.Visitors.{Methods, Depth, depth_first_search_with}
use maia.Graph.Build.{one_argument}
use maia.Graph.Zip.{Pair, pytree_zip_adaptor}

-- The arrays, with tolerances in `T`. The second value may be `None`.
pub record Arrays (V T : Type 0) : Type 0 where
  pub value_type : V → Text
  pub is_float : V → Bool
  pub allclose : T → V → Option V → Bool
  pub array_equal : V → Option V → Bool

module _ {V T : Type 0} (np : Arrays V T) where
  -- `get_value_type`, on the value.
  unfoldable pub get_value_type : Option V → Text
  get_value_type none = text "MT"
  get_value_type (some v) = np.value_type v

  -- `get_value_kind`, on the value.
  unfoldable pub get_value_kind : Option V → Text
  unfolding get_value_type
  get_value_kind v = let t = get_value_type v in if not (text_eq t (text "MT")) then take 1 t else t

  unfoldable pub is_same_value_type : Option V → Option V → Bool → Bool
  unfolding get_value_kind get_value_type
  is_same_value_type v w strict =
      if strict
      then text_eq (get_value_type v) (get_value_type w)
      else text_eq (get_value_kind v) (get_value_kind w)

  -- The values, once their types are the same.
  abbrev pub equal_values : T → Option V → Option V → Bool
  equal_values abs_tol none w = true
  equal_values abs_tol (some v) w =
      if np.is_float v then np.allclose abs_tol v w else np.array_equal v w

  unfoldable pub is_same_value : T → Bool → Option V → Option V → Bool
  unfolding is_same_value_type
  is_same_value abs_tol type_tol v w =
      if is_same_value_type v w (not type_tol) then equal_values abs_tol v w else false

  unfoldable pub is_same_node : T → Bool → Node V → Node V → Bool
  unfolding is_same_value
  is_same_node abs_tol type_tol (node n v cs l) (node m w ds k) =
      text_eq n m && (text_eq l k && is_same_value abs_tol type_tol v w)

  -- `same_tree_visitor.pre`, on the two nodes.
  unfoldable pub same_step : T → Bool → Pair V → Bool → Bool × Option Step
  unfolding is_same_node
  same_step abs_tol type_tol (none, y) is_same = (false, some out)
  same_step abs_tol type_tol (some x, none) is_same = (false, some out)
  same_step abs_tol type_tol (some x, some y) is_same =
      if not (is_same_node abs_tol type_tol x y) then (false, some out) else (is_same, some into)

  abbrev pub same_pre : T → Bool → Option (Pair V) → Bool → Result (Bool × Option Step)
  same_pre abs_tol type_tol none is_same = raised type_error
  same_pre abs_tol type_tol (some ns) is_same = ok (same_step abs_tol type_tol ns is_same)

  unfoldable pub same_tree_visitor : T → Bool → Methods (Pair V) Bool
  unfolding same_step
  same_tree_visitor abs_tol type_tol = record {
    pre = some (λ args is_same. one_argument args >>= λ ns. same_pre abs_tol type_tol ns is_same);
    post = none;
    down = none;
    up = none;
  }

  unfoldable pub is_same_tree :
      (Node V → Node V → Bool) → T → Bool → ℕ → Node V → Node V → Option (Result Bool)
  unfolding same_tree_visitor pytree_zip_adaptor
  is_same_tree rest abs_tol type_tol fuel t u =
      Option.map (λ r. r >>= λ found. ok found.1)
        (depth_first_search_with (pytree_zip_adaptor rest (some t, some u))
          (same_tree_visitor abs_tol type_tol) Depth.node fuel true)
