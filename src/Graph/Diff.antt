-- ===== src/Graph/Diff.antt =====
-- The report of differences in `maia/pytree/compare.py`. The comparison of two arrays is a function
-- that the caller gives.
use mathlib.Core.Option
use maia.Base.{
  ℕ, List, [], ◌∷◌, ◌++◌, Bool, true, false, ◌&&◌, not, Option, none, some, if◌then◌else◌, Text,
  text, text_eq,
}
use maia.Base.Result.{Result, ok, raised, type_error, index_error, assert, ◌>>=◌, ◌>>◌}
use maia.Pytree.Node.{Node, node, get_name}
use maia.Graph.Stack.{Step, into, over}
use maia.Graph.Visitors.{Methods, Depth, depth_first_search_with}
use maia.Graph.Zip.{Pair, pytree_zip_adaptor}
use maia.Graph.Compare.{Arrays, get_value_type, is_same_value_type}

-- Whether all is the same, the errors and the warnings.
abbrev pub Report : Type 0
Report = Bool × Text × Text

-- `comp`, and its method `modify_name` if it has one.
pub record Comparison (V : Type 0) : Type 0 where
  pub compare_values : List (Option (Pair V)) → Report
  pub modify_name : Option (Text → Text)

abbrev pub new_line : Text
new_line = 10 ∷ []

module _ {V : Type 0} where
  abbrev pub value_of : Node V → Option V
  value_of (node n v cs l) = v

  abbrev pub label_of : Node V → Text
  label_of (node n v cs l) = l

  -- The loop of `_zip_path`; `None` has no name.
  unfoldable pub zip_path_loop : Text → List (Option (Pair V)) → Result Text
  zip_path_loop path [] = ok path
  zip_path_loop path (none ∷ ns) = raised type_error
  zip_path_loop path (some (none, y) ∷ ns) = raised type_error
  zip_path_loop path (some (some x, none) ∷ ns) = raised type_error
  zip_path_loop path (some (some x, some y) ∷ ns) =
      let rest = zip_path_loop (path ++ get_name x ++ text "/") ns in
      assert (text_eq (get_name x) (get_name y)) >> rest

  abbrev pub zip_path : List (Option (Pair V)) → Result Text
  zip_path ns = zip_path_loop (text "/") ns

  -- `nodes_stack[:-1]` and `nodes_stack[-1]`
  unfoldable pub split_last :
      List (Option (Pair V)) → Result (List (Option (Pair V)) × Option (Pair V))
  split_last [] = raised index_error
  split_last (n ∷ []) = ok ([], n)
  split_last (n ∷ m ∷ ns) = split_last (m ∷ ns) >>= λ r. ok (n ∷ r.0, r.1)

  module _ (comp : Comparison V) where
    unfoldable pub value_comparison_report :
        List (Option (Pair V)) → Option V → Option V → Result Report
    value_comparison_report stack none none = ok (true, [], [])
    value_comparison_report stack none (some w) = assert false >> ok (true, [], [])
    value_comparison_report stack (some v) none = assert false >> ok (true, [], [])
    value_comparison_report stack (some v) (some w) = ok (comp.compare_values stack)

    abbrev pub shown_name : Option (Text → Text) → Text → Text
    shown_name none name = name
    shown_name (some f) name = f name

    -- A report of the values, with the path and the name before each text that is not empty.
    abbrev pub with_path : Text → Text → Text
    with_path start [] = []
    with_path start (c ∷ report) = start ++ text " -- Values differ: " ++ (c ∷ report) ++ new_line

    abbrev pub placed : Text → Report → Report
    placed start (is_ok, err, warn) = (is_ok, with_path start err, with_path start warn)

module _ {V T : Type 0} (np : Arrays V T) (comp : Comparison V) (strict : Bool) where
  -- Two nodes with one name.
  unfoldable pub diff_named : List (Option (Pair V)) → Text → Node V → Node V → Result Report
  unfolding value_comparison_report is_same_value_type get_value_type
  diff_named stack path x y =
      if not (text_eq (label_of x) (label_of y))
      then ok (
        false,
        path
            ++ get_name x
            ++ text " -- Labels differ: "
            ++ label_of x
            ++ text " <> "
            ++ label_of y
            ++ new_line,
        [],
      )
      else if not (is_same_value_type np (value_of x) (value_of y) strict)
      then ok (
        false,
        path
            ++ get_name x
            ++ text " -- Value types differ: "
            ++ get_value_type np (value_of x)
            ++ text " <> "
            ++ get_value_type np (value_of y)
            ++ new_line,
        [],
      )
      else (value_comparison_report comp stack (value_of x) (value_of y) >>= λ r.
          ok (placed comp (path ++ shown_name comp comp.modify_name (get_name x)) r))

  unfoldable pub diff_pair :
      List (Option (Pair V)) → Text → Option (Pair V) → Result (Report × Step)
  unfolding diff_named
  diff_pair stack path none = raised type_error
  diff_pair stack path (some (none, none)) = raised type_error
  diff_pair stack path (some (none, some y)) =
      ok ((false, text "> " ++ path ++ get_name y ++ new_line, []), over)
  diff_pair stack path (some (some x, none)) =
      ok ((false, text "< " ++ path ++ get_name x ++ new_line, []), over)
  diff_pair stack path (some (some x, some y)) =
      if not (text_eq (get_name x) (get_name y))
      then ok (
        (
          false,
          text "< "
              ++ path
              ++ get_name x
              ++ new_line
              ++ text "> "
              ++ path
              ++ get_name y
              ++ new_line,
          [],
        ),
        over,
      )
      else (diff_named stack path x y >>= λ r. ok (r, into))

  unfoldable pub diff_nodes : List (Option (Pair V)) → Result (Report × Step)
  unfolding split_last zip_path_loop diff_pair
  diff_nodes stack = split_last stack >>= λ s. zip_path s.0 >>= λ path. diff_pair stack path s.1

  -- `self.is_ok and is_ok`, and the two texts.
  abbrev pub add_report : Report → Report → Report
  add_report (a, e, w) (b, f, x) = (a && b, e ++ f, w ++ x)

  abbrev pub diff_pre : List (Option (Pair V)) → Report → Result (Report × Option Step)
  diff_pre stack report = diff_nodes stack >>= λ r. ok (add_report report r.0, some r.1)

  unfoldable pub diff_tree_visitor : Methods (Pair V) Report
  unfolding diff_nodes
  diff_tree_visitor = record { pre = some diff_pre; post = none; down = none; up = none }

  unfoldable pub diff_tree : (Node V → Node V → Bool) → ℕ → Node V → Node V → Option (Result Report)
  unfolding diff_tree_visitor pytree_zip_adaptor
  diff_tree rest fuel t u =
      Option.map (λ r. r >>= λ found. ok found.1)
        (depth_first_search_with (pytree_zip_adaptor rest (some t, some u)) diff_tree_visitor
          Depth.all fuel (true, [], []))
