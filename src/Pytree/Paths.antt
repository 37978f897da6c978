-- ===== src/Pytree/Paths.antt =====
-- The paths of `maia/pytree/path_utils.py`, texts with `/` between the names.
use maia.Base.{
  ℕ, Bool, true, zero, suc, ◌-◌, ◌==◌, min, ltb, List, [], ◌∷◌, ◌++◌, Option, some, if◌then◌else◌,
  length, take, drop, map, Text,
}
use mathlib.Core.Option
use maia.Base.Int.{ℤ, pos, negsuc}
use maia.Base.Result.{Result, ok, raised, index_error, ◌>>=◌}
use maia.Pytree.Node.{Node, get_name}
use maia.Pytree.Walk.Chains.{Options}
use maia.Pytree.Walk.ChainWalker.{Answer, nodes, lineages}
use maia.Pytree.Walk.Walker.{by_depth, shallow}
use maia.Pytree.Walk.Options.{forward}
use maia.Pytree.Walk.Api.{iter_nodes_from_predicates}

-- The code point of `/`.
abbrev pub slash : ℕ
slash = 47

abbrev pub onto_first : ℕ → List Text → List Text
onto_first c [] = (c ∷ []) ∷ []
onto_first c (s ∷ ss) = (c ∷ s) ∷ ss

-- `path.split('/')`
unfoldable pub split : Text → List Text
split [] = [] ∷ []
split (c ∷ path) = let rest = split path in if c == slash then [] ∷ rest else onto_first c rest

-- `'/'.join(names)`
unfoldable pub join : List Text → Text
join [] = []
join (s ∷ []) = s
join (s ∷ t ∷ ss) = s ++ (slash ∷ join (t ∷ ss))

-- Where a slice of a list of this length is cut at `i`; a negative number counts from the end.
unfoldable pub cut : ℤ → ℕ → ℕ
cut (pos n) size = min n size
cut (negsuc n) size = size - suc n

unfoldable pub path_head : Text → ℤ → Text
unfolding split join cut
path_head path i = let splited = split path in join (take (cut i (length splited)) splited)

unfoldable pub path_tail : Text → ℤ → Text
unfolding split join cut
path_tail path i = let splited = split path in join (drop (cut i (length splited)) splited)

-- `splited[i] = func(splited[i])`
unfoldable pub update_elt : ℕ → (Text → Text) → List Text → Result (List Text)
update_elt i func [] = raised index_error
update_elt zero func (s ∷ ss) = ok (func s ∷ ss)
update_elt (suc i) func (s ∷ ss) = update_elt i func ss >>= λ ss'. ok (s ∷ ss')

-- The place that `i` is in a list of this length.
unfoldable pub elt_index : ℤ → ℕ → Result ℕ
elt_index (pos n) size = if ltb n size then ok n else raised index_error
elt_index (negsuc n) size = if ltb n size then ok (size - suc n) else raised index_error

unfoldable pub update_path_elt : Text → ℤ → (Text → Text) → Result Text
unfolding update_elt elt_index
update_path_elt path i func = do
  k ← elt_index i (length (split path))
  splited ← update_elt k func (split path)
  ok (join splited)

-- The options of the search in `predicates_to_paths`.
abbrev pub child_search : Options
child_search = record {
  search = by_depth;
  explore = shallow;
  depth = record { low = 1; high = some 1 };
  sort = forward;
}

module _ {V : Type 0} where
  abbrev pub path_of : List (Node V) → Text
  path_of lineage = join (map get_name lineage)

  abbrev pub paths_of : Answer V → List Text
  paths_of (nodes ns) = map get_name ns
  paths_of (lineages ls) = map path_of ls

  unfoldable pub predicates_to_paths : Node V → List (Node V → Bool) → Result (Option (List Text))
  predicates_to_paths root predicates =
      iter_nodes_from_predicates child_search true predicates root >>= λ found.
      ok (Option.map paths_of found)
