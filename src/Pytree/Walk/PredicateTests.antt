-- ===== src/Pytree/Walk/PredicateTests.antt =====
-- Libraries for values that are numbers, and `belongs_to_family` on a node with a family.
use maia.Base.{
  ℕ, ◌==◌, ◌≡◌, refl, ◌∷◌, [], Bool, true, false, ◌||◌, ◌&&◌, Option, none, some, Text, text,
  text_eq, filter, any, head?,
}
use maia.Base.Result.{ok}
use maia.Pytree.Node.{node, Children, nil, cons, to_list}
use maia.Pytree.Walk.Predicate.{Libraries, belongs_to_family, value_is_family}
use maia.Pytree.Walk.PredicateLaws.{Literal, first_is, has_label, belongs_to_family_lem}

abbrev equal_values : Option ℕ → Option ℕ → Bool
equal_values none none = true
equal_values none (some w) = false
equal_values (some v) none = false
equal_values (some v) (some w) = v == w

-- A value is the text of one character.
abbrev is_letter : Option ℕ → Text → Bool
is_letter none t = false
is_letter (some v) t = text_eq (v ∷ []) t

-- Patterns without wildcards.
abbrev pub libraries : Libraries ℕ
libraries = record {
  fnmatch = text_eq;
  array_equal = equal_values;
  f_contiguous = λ v. true;
  asfortranarray = λ v. v;
  value_is = is_letter;
  is_sids = λ t. true;
}

abbrev families : Children ℕ
families =
    cons (node (text "FamilyName") (some 87) nil (text "FamilyName_t"))
      (cons (node (text "More") (some 88) nil (text "AdditionalFamilyName_t")) nil)

literal : (t : Text) → Literal libraries t
literal t = (refl, λ l. refl)

belongs_to_family_lem_example :
    belongs_to_family libraries (text "X") true (node (text "BC") none families (text "BC_t"))
    ≡ ok (
        first_is libraries
          (text "X")
          (head? (filter (has_label (text "FamilyName_t")) (to_list families)))
        || (true
            && any
                (value_is_family libraries (text "X"))
                (filter (has_label (text "AdditionalFamilyName_t")) (to_list families))))
unfolding text_eq
belongs_to_family_lem_example =
    belongs_to_family_lem libraries (text "X") true (text "BC") none families (text "BC_t")
      (literal (text "FamilyName_t")) (literal (text "AdditionalFamilyName_t")) refl refl
