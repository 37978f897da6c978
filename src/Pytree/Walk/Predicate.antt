-- ===== src/Pytree/Walk/Predicate.antt =====
-- `maia/pytree/walk/predicate.py`, and the functions of `walkers_api.py` on what stands for a
-- predicate. `fnmatch` and numpy's comparisons are parameters.
use maia.Base.{
  List, [], ◌∷◌, Bool, true, false, ◌&&◌, Option, none, some, if◌then◌else◌, Text, text, text_eq,
}
use maia.Base.Int.{pos}
use maia.Base.Result.{Result, ok, raised, type_error, ◌>>=◌}
use maia.Pytree.Node.{Node, node}
use maia.Pytree.Access.{is_valid_label}
use maia.Pytree.Paths.{split}
use maia.Pytree.Walk.Options.{forward}
use maia.Pytree.Walk.NodeParser.{Search, out_of_fuel, returns}
use maia.Pytree.Walk.Walker.{up_to}
use maia.Pytree.Walk.Api

-- What the predicates use of the libraries, and the labels that the build lists.
pub record Libraries (V : Type 0) : Type 0 where
  pub fnmatch : Text → Text → Bool
  pub array_equal : Option V → Option V → Bool
  pub f_contiguous : V → Bool
  pub asfortranarray : V → V
  -- `get_value(n) == family`, on a value.
  pub value_is : Option V → Text → Bool
  pub is_sids : Text → Bool

-- What a caller may give for a predicate: a text, a member of `CGK.Label`, a callable, an array, or
-- anything else.
pub data Query (V : Type 0) : Type 0 where
  by_text by_label : Text → Query V
  callable : (Node V → Bool) → Query V
  by_array : V → Query V
  other : Query V

-- What stands for a predicate of a chain: a query, or a dictionary with options of its own, `K`.
pub data Element (V K : Type 0) : Type 0 where
  plain : Query V → Element V K
  with_options : K → Query V → Element V K

pub data Predicates (V K : Type 0) : Type 0 where
  path : Text → Predicates V K
  sequence : List (Element V K) → Predicates V K
  other_predicates : Predicates V K

-- A callable predicate, and its own options if it has any.
abbrev pub Callable : Type 0 → Type 0 → Type 0
Callable V K = Option K × (Node V → Bool)

module _ {V : Type 0} (lib : Libraries V) where
  unfoldable pub match_name : Text → Node V → Bool
  match_name name (node n v cs l) = lib.fnmatch n name

  -- `_convert_value`, on an array.
  unfoldable pub convert_array : V → V
  convert_array value = if lib.f_contiguous value then value else lib.asfortranarray value

  unfoldable pub match_value : V → Node V → Bool
  unfolding convert_array
  match_value value (node n v cs l) = lib.array_equal v (some (convert_array value))

  unfoldable pub match_str_label : Text → Node V → Bool
  match_str_label label (node n v cs l) = lib.fnmatch l label

  unfoldable pub match_cgk_label : Text → Node V → Bool
  match_cgk_label label (node n v cs l) = text_eq l label

  unfoldable pub match_name_value : Text → V → Node V → Bool
  unfolding match_name match_value
  match_name_value name value n = match_name name n && match_value value n

  unfoldable pub match_name_label : Text → Text → Node V → Bool
  unfolding match_name match_str_label
  match_name_label name label n = match_name name n && match_str_label label n

  unfoldable pub match_value_label : V → Text → Node V → Bool
  unfolding match_value match_str_label
  match_value_label value label n = match_value value n && match_str_label label n

  unfoldable pub match_name_value_label : Text → V → Text → Node V → Bool
  unfolding match_name match_value match_str_label
  match_name_value_label name value label n =
      match_name name n && (match_value value n && match_str_label label n)

  unfoldable pub auto_predicate : Query V → Result (Node V → Bool)
  unfolding match_name match_str_label match_cgk_label match_value
  auto_predicate (by_text query) =
      ok (if is_valid_label lib.is_sids query true then match_str_label query else match_name query)
  auto_predicate (by_label label) = ok (match_cgk_label label)
  auto_predicate (callable p) = ok p
  auto_predicate (by_array value) = ok (match_value value)
  auto_predicate other = raised type_error

  module _ {K : Type 0} where
    abbrev pub auto_element : Element V K → Result (Callable V K)
    auto_element (plain query) = auto_predicate query >>= λ p. ok (none, p)
    auto_element (with_options options query) = auto_predicate query >>= λ p. ok (some options, p)

    unfoldable pub auto_each : List (Element V K) → Result (List (Callable V K))
    unfolding auto_predicate
    auto_each [] = ok []
    auto_each (x ∷ xs) = auto_element x >>= λ p. auto_each xs >>= λ ps. ok (p ∷ ps)

    abbrev pub by_names : List Text → List (Element V K)
    by_names [] = []
    by_names (t ∷ ts) = plain (by_text t) ∷ by_names ts

    unfoldable pub auto_predicates : Predicates V K → Result (List (Callable V K))
    unfolding auto_each split
    auto_predicates (path t) = auto_each (by_names (split t))
    auto_predicates (sequence xs) = auto_each xs
    auto_predicates other_predicates = raised type_error

  -- `get_node_from_predicate` and `iter_nodes_from_predicate`, on a query.
  unfoldable pub get_node_from_query : Api.Kwargs → Query V → Node V → Result (Search V)
  unfolding auto_predicate Api.get_node_from_predicate
  get_node_from_query k query root =
      auto_predicate query >>= λ p. Api.get_node_from_predicate k p root

  unfoldable pub iter_nodes_from_query :
      Api.Kwargs → Query V → Node V → Result (Option (List (Node V)))
  unfolding auto_predicate Api.iter_nodes_from_predicate
  iter_nodes_from_query k query root =
      auto_predicate query >>= λ p. Api.iter_nodes_from_predicate k p root

  -- The options of the two searches of `belongs_to_family`.
  abbrev pub near : Api.Kwargs
  near = record { search = text "dfs"; explore = none; depth = up_to (pos 1); sort = forward }

  abbrev pub value_is_family : Text → Node V → Bool
  value_is_family family (node n v cs l) = lib.value_is v family

  -- `for additional_family_n in …: if …: return True`
  abbrev pub any_family : Text → List (Node V) → Bool
  any_family family [] = false
  any_family family (n ∷ ns) = if value_is_family family n then true else any_family family ns

  abbrev pub found_family : Text → Search V → Bool
  found_family family out_of_fuel = false
  found_family family (returns none) = false
  found_family family (returns (some n)) = value_is_family family n

  abbrev pub found_any : Text → Option (List (Node V)) → Bool
  found_any family none = false
  found_any family (some ns) = any_family family ns

  -- The body, from what the two searches give. The second is only looked at where it is run.
  abbrev pub decide_family :
      Text → Bool → Result (Search V) → Result (Option (List (Node V))) → Result Bool
  decide_family family allow_additional first additional = first >>= λ found.
      if found_family family found
      then ok true
      else if allow_additional
      then (additional >>= λ r. ok (found_any family r))
      else ok false

  unfoldable pub belongs_to_family : Text → Bool → Node V → Result Bool
  unfolding get_node_from_query iter_nodes_from_query
  belongs_to_family family allow_additional n =
      decide_family family allow_additional
        (get_node_from_query near (by_text (text "FamilyName_t")) n)
        (iter_nodes_from_query near (by_text (text "AdditionalFamilyName_t")) n)
