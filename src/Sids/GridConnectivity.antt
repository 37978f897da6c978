-- ===== src/Sids/GridConnectivity.antt =====
-- The class `GridConnectivity` of `maia/pytree/sids/node_inspect.py`: what is read from a join.
use maia.Base.{
  ℕ, zero, suc, ◌+◌, ◌==◌, List, [], ◌∷◌, ◌++◌, Bool, true, false, Option, none, some,
  if◌then◌else◌, map, length, range, Text, text, text_eq, has_code,
}
use mathlib.Core.Option
use maia.Base.Int.{ℤ, pos, negsuc}
use maia.Base.Result.{Result, ok, ◌>>=◌}
use maia.Pytree.Node.{Node}
use maia.Pytree.Paths.{slash}
use maia.Pytree.Walk.Options.{Depth, forward}
use maia.Pytree.Walk.NodeParser.{range_find_dfs}
use maia.Pytree.Walk.Predicate.{Libraries, match_str_label}
use maia.Sids.Arrays.{
  Arrays, raw_value, get_label, not_none, get_text, value_is_text, check_in_labels,
  get_child_from_name,
}

abbrev pub labels : List Text
labels = text "GridConnectivity_t" ∷ text "GridConnectivity1to1_t" ∷ []

-- `np.abs` and `np.sign`
abbrev pub magnitude : ℤ → ℕ
magnitude (pos n) = n
magnitude (negsuc n) = suc n

abbrev pub sign : ℤ → ℤ
sign (pos zero) = pos 0
sign (pos (suc n)) = pos 1
sign (negsuc n) = negsuc 0

-- `np.sign(x) * (np.abs(x) == k)`
abbrev pub coefficient : ℕ → ℤ → ℤ
coefficient k x = if magnitude x == k then sign x else pos 0

-- The matrix of a transform: the row of each `k + 1`.
unfoldable pub matrix_of : List ℤ → List (List ℤ)
matrix_of transform = map (λ k. map (coefficient (k + 1)) transform) (range 0 (length transform))

-- `depth=[2,2]`
abbrev pub two_levels : Depth
two_levels = record { low = 2; high = some 2 }

-- `RotationCenter`, `RotationAngle` and `Translation`.
abbrev pub PeriodicValues : Type 0 → Type 0
PeriodicValues V = Option V × Option V × Option V

module _ {V : Type 0} (lib : Libraries V) (arr : Arrays V) where
  abbrev text_under : Option (Node V) → Option Text
  text_under none = some (text "Overset")
  text_under (some n) = get_text arr n

  -- `GridConnectivity.Type`
  unfoldable pub gc_type : Node V → Result (Option Text)
  unfolding get_child_from_name get_text
  gc_type gc = check_in_labels labels gc (
      ok (
        if text_eq (get_label gc) (text "GridConnectivity1to1_t")
        then some (text "Abutting1to1")
        else text_under (get_child_from_name lib gc (text "GridConnectivityType"))))

  abbrev transform_array : Option (Node V) → Option V
  transform_array none = some (arr.from_items (1 ∷ 2 ∷ 3 ∷ []))
  transform_array (some n) = raw_value n

  -- `Transform`, as a vector and with `as_matrix`.
  unfoldable pub transform : Node V → Result (Option V)
  unfolding get_child_from_name
  transform gc =
      check_in_labels labels gc
        (ok (transform_array (get_child_from_name lib gc (text "Transform"))))

  unfoldable pub transform_matrix : Node V → Result (List (List ℤ))
  unfolding transform matrix_of
  transform_matrix gc =
      transform gc >>= λ v. not_none (Option.bind v arr.signed_items) >>= λ t. ok (matrix_of t)

  unfoldable pub is1to1 : Node V → Result Bool
  unfolding gc_type
  is1to1 gc =
      check_in_labels labels gc (gc_type gc >>= λ t. ok (value_is_text arr t (text "Abutting1to1")))

  -- `get_node_from_label(gc_node, 'Periodic_t', depth=[2,2])`
  unfoldable pub periodic_node : Node V → Option (Node V)
  unfolding range_find_dfs match_str_label
  periodic_node gc = range_find_dfs two_levels forward (match_str_label lib (text "Periodic_t")) gc

  abbrev pub is_there : Option (Node V) → Bool
  is_there none = false
  is_there (some n) = true

  unfoldable pub isperiodic : Node V → Result Bool
  unfolding periodic_node
  isperiodic gc = check_in_labels labels gc (ok (is_there (periodic_node gc)))

  abbrev value_of_child : Node V → Text → Result (Option V)
  value_of_child n name = not_none (get_child_from_name lib n name) >>= λ c. ok (raw_value c)

  abbrev values_under : Option (Node V) → Result (PeriodicValues V)
  values_under none = ok (none, none, none)
  values_under (some n) = do
    center ← value_of_child n (text "RotationCenter")
    angle ← value_of_child n (text "RotationAngle")
    translation ← value_of_child n (text "Translation")
    ok (center, angle, translation)

  unfoldable pub periodic_values : Node V → Result (PeriodicValues V)
  unfolding periodic_node get_child_from_name
  periodic_values gc = check_in_labels labels gc (values_under (periodic_node gc))

  abbrev donor_path : Text → Text → Text
  donor_path cur_base_name opp = if has_code slash opp then opp else cur_base_name ++ (slash ∷ opp)

  -- `ZoneDonorPath`
  unfoldable pub zone_donor_path : Node V → Text → Result Text
  unfolding get_text
  zone_donor_path gc cur_base_name =
      check_in_labels labels gc
        (not_none (get_text arr gc) >>= λ opp. ok (donor_path cur_base_name opp))
