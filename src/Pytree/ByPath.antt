-- ===== src/Pytree/ByPath.antt =====
-- The functions on paths of `maia/pytree/walk/generate.py`, which are written out there, and the
-- searches for all the bases and zones of a tree.
use mathlib.Core.Option
use maia.Base.{List, [], ◌∷◌, Option, none, some, if◌then◌else◌, Text, text, text_eq, has_code}
use maia.Base.Int.{negsuc}
use maia.Base.Result.{Result, ok, raised, type_error, node_not_found, ◌>>=◌}
use maia.Pytree.Node.{Node, node, Children, nil, cons, get_name}
use maia.Pytree.Paths.{slash, split, path_head, path_tail}
use maia.Pytree.Remove.{rm_children, rm_nodes}
use maia.Pytree.Walk.Options.{forward}
use maia.Pytree.Walk.Walker.{between}
use maia.Pytree.Walk.Chains.{append?}
use maia.Pytree.Walk.Api
use maia.Pytree.Walk.Predicate.{Libraries, match_name, match_str_label}

module _ {V : Type 0} where
  -- `next((c for c in node[2] if c[0] == name))`
  abbrev pub first_named : Text → Children V → Option (Node V)
  first_named name nil = none
  first_named name (cons c cs) = if text_eq (get_name c) name then some c else first_named name cs

  -- The loop over the names.
  unfoldable pub follow : List Text → Node V → Option (Node V)
  follow [] n = some n
  follow (name ∷ names) (node n v cs l) = Option.bind (first_named name cs) (follow names)

  unfoldable pub get_node_from_path : Node V → Text → Option (Node V)
  unfolding follow split
  get_node_from_path root [] = some root
  get_node_from_path root (c ∷ path) = follow (split (c ∷ path)) root

  -- What `request_node_from_path` does with what it found; a default that is a node is true.
  abbrev pub found_or : Option (Node V) → Option (Node V) → Result (Node V)
  found_or (some n) default = ok n
  found_or none (some default) = ok default
  found_or none none = raised node_not_found

  unfoldable pub request_node_from_path : Node V → Text → Option (Node V) → Result (Node V)
  unfolding get_node_from_path
  request_node_from_path root path default = found_or (get_node_from_path root path) default

  -- The tree after a change of the first child with a name. Without one the change is asked of
  -- `None`.
  abbrev pub edit_first : Text → (Node V → Result (Node V)) → Children V → Result (Children V)
  edit_first name f nil = raised type_error
  edit_first name f (cons c cs) =
      if text_eq (get_name c) name
      then (f c >>= λ d. ok (cons d cs))
      else (edit_first name f cs >>= λ ds. ok (cons c ds))

  -- The tree after a change of the node that `follow` finds.
  unfoldable pub edit_at : List Text → (Node V → Node V) → Node V → Result (Node V)
  edit_at [] f n = ok (f n)
  edit_at (name ∷ names) f (node n v cs l) =
      edit_first name (edit_at names f) cs >>= λ ds. ok (node n v ds l)

  -- The tree after a change of the node that `get_node_from_path` finds.
  abbrev pub edit_path : Text → (Node V → Node V) → Node V → Result (Node V)
  edit_path [] f root = ok (f root)
  edit_path (c ∷ path) f root = edit_at (split (c ∷ path)) f root

-- The keyword arguments of the searches among the children.
abbrev pub child_kwargs : Api.Kwargs
child_kwargs = record {
  search = text "dfs";
  explore = none;
  depth = between 1 (some 1);
  sort = forward;
}

module _ {V : Type 0} (lib : Libraries V) where
  unfoldable pub rm_node_from_path : Text → Node V → Result (Node V)
  unfolding path_head path_tail rm_children rm_nodes match_name edit_at split
  rm_node_from_path path root =
      if has_code slash path
      then edit_path (path_head path (negsuc 0))
          (rm_nodes (match_name lib (path_tail path (negsuc 0))) none) root
      else ok (rm_children (match_name lib path) root)

  -- `iter_children_from_label`
  unfoldable pub iter_children_from_label : Node V → Text → Result (Option (List (Node V)))
  unfolding Api.iter_nodes_from_predicate match_str_label
  iter_children_from_label root label =
      Api.iter_nodes_from_predicate child_kwargs (match_str_label lib label) root

  -- `for n in ns: yield from f(n)`, where a search may raise.
  abbrev pub yield_each :
      (Node V → Result (Option (List (Node V)))) → List (Node V) → Result (Option (List (Node V)))
  yield_each f [] = ok (some [])
  yield_each f (n ∷ ns) = f n >>= λ xs. yield_each f ns >>= λ ys. ok (append? xs ys)

  abbrev pub yield_each? :
      (Node V → Result (Option (List (Node V))))
      → Option (List (Node V))
      → Result (Option (List (Node V)))
  yield_each? f none = ok none
  yield_each? f (some ns) = yield_each f ns

  unfoldable pub iter_all_zone_t : Node V → Result (Option (List (Node V)))
  unfolding iter_children_from_label
  iter_all_zone_t (node n v cs l) =
      if text_eq l (text "CGNSBase_t")
      then iter_children_from_label (node n v cs l) (text "Zone_t")
      else if text_eq l (text "CGNSTree_t")
      then (iter_children_from_label (node n v cs l) (text "CGNSBase_t")
          >>= yield_each? (λ base. iter_children_from_label base (text "Zone_t")))
      else ok (some [])

  unfoldable pub iter_all_cgns_base_t : Node V → Result (Option (List (Node V)))
  unfolding iter_children_from_label
  iter_all_cgns_base_t (node n v cs l) =
      if text_eq l (text "CGNSTree_t")
      then iter_children_from_label (node n v cs l) (text "CGNSBase_t")
      else ok (some [])
