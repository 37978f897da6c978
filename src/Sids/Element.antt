-- ===== src/Sids/Element.antt =====
-- The class `Element` of `maia/pytree/sids/node_inspect.py`: what is read from an `Elements_t` node.
use maia.Base.{ℕ, suc, Option, Text, text}
use maia.Base.Int.{ℤ, minus}
use maia.Base.Result.{Result, ok, ◌>>=◌}
use maia.Pytree.Node.{Node}
use maia.Pytree.Walk.Predicate.{Libraries}
use maia.Sids.Arrays.{Arrays, raw_value, not_none, entry, check_is_label, get_child_from_name}
use maia.Sids.Elements.{element_name, element_dim, element_number_of_nodes}

abbrev label : Text
label = text "Elements_t"

module _ {V : Type 0} (lib : Libraries V) (arr : Arrays V) where
  -- `Element.Type`
  unfoldable pub kind : Node V → Result ℕ
  unfolding entry
  kind elt = check_is_label label elt (entry arr (raw_value elt) 0)

  unfoldable pub cgns_name : Node V → Result Text
  unfolding kind element_name
  cgns_name elt = check_is_label label elt (kind elt >>= element_name)

  unfoldable pub dimension : Node V → Result (Option ℕ)
  unfolding kind element_dim
  dimension elt = check_is_label label elt (kind elt >>= element_dim)

  unfoldable pub n_vtx : Node V → Result (Option ℕ)
  unfolding kind element_number_of_nodes
  n_vtx elt = check_is_label label elt (kind elt >>= element_number_of_nodes)

  -- `Element.Range`: the array, or `None`.
  unfoldable pub range : Node V → Result (Option V)
  unfolding get_child_from_name
  range elt =
      check_is_label label elt
        (not_none (get_child_from_name lib elt (text "ElementRange")) >>= λ r. ok (raw_value r))

  -- The first and the last number of a range, as the array holds them.
  unfoldable pub ends : Option V → Result (ℕ × ℕ)
  unfolding entry
  ends er = entry arr er 1 >>= λ last. entry arr er 0 >>= λ first. ok (first, last)

  unfoldable pub size : Node V → Result ℤ
  unfolding range ends
  size elt = check_is_label label elt (range elt >>= ends >>= λ e. ok (minus (suc e.1) e.0))
