-- ===== src/Sids/LiteralLaws.antt =====
-- A search by a name or a label without wildcards is a search for that name or label, where the
-- library `fnmatch` matches a pattern without wildcards literally.
use mathlib.Core.Path.{fun_ext}
use maia.Base.{◌≡◌, ap, Bool, false, ◌||◌, Text, text_eq, has_code, filter}
use maia.Pytree.Node.{Node, node, get_name, get_children, to_list}
use maia.Pytree.Walk.Predicate.{Libraries, match_name, match_str_label}
use maia.Sids.Arrays.{
  get_label, first_of_children, get_child_from_name, get_child_from_label, get_children_from_label,
}

-- `*`, `?` or `[` is in the pattern.
abbrev pub has_wildcard : Text → Bool
has_wildcard pattern = has_code 42 pattern || (has_code 63 pattern || has_code 91 pattern)

module _ {V : Type 0} (lib : Libraries V) where
  module _
      (literal : (s pattern : Text)
        → has_wildcard pattern ≡ false
        → lib.fnmatch s pattern ≡ text_eq s pattern)
      (pattern : Text) (plain : has_wildcard pattern ≡ false) where
    match_name-literal : (n : Node V) → match_name lib pattern n ≡ text_eq (get_name n) pattern
    unfolding match_name
    match_name-literal (node n v cs l) = literal n pattern plain

    match_label-literal :
        (n : Node V) → match_str_label lib pattern n ≡ text_eq (get_label n) pattern
    unfolding match_str_label
    match_label-literal (node n v cs l) = literal l pattern plain

    pub get_child_from_name-literal :
        (n : Node V)
        → get_child_from_name lib n pattern
          ≡ first_of_children (λ c. text_eq (get_name c) pattern) (get_children n)
    unfolding get_child_from_name
    get_child_from_name-literal n =
        ap (λ (p : Node V → Bool). first_of_children p (get_children n))
          (fun_ext match_name-literal)

    pub get_child_from_label-literal :
        (n : Node V)
        → get_child_from_label lib n pattern
          ≡ first_of_children (λ c. text_eq (get_label c) pattern) (get_children n)
    unfolding get_child_from_label
    get_child_from_label-literal n =
        ap (λ (p : Node V → Bool). first_of_children p (get_children n))
          (fun_ext match_label-literal)

    pub get_children_from_label-literal :
        (n : Node V)
        → get_children_from_label lib n pattern
          ≡ filter (λ c. text_eq (get_label c) pattern) (to_list (get_children n))
    unfolding get_children_from_label
    get_children_from_label-literal n =
        ap (λ (p : Node V → Bool). filter p (to_list (get_children n)))
          (fun_ext match_label-literal)
