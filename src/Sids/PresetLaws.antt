-- ===== src/Sids/PresetLaws.antt =====
-- What is read from a boundary condition that `new_BC` builds is what it was built from.
use maia.Base.{
  ◌≡◌, refl, ap, ◌∙◌, leb, ◌&&◌, List, any, head?, [], ◌∷◌, ◌++◌, if◌then◌else◌, Bool, true, false,
  Option, none, some, text_mem, Text, text, text_eq, text_eq_iff, Bool-cases, inl, inr, arith,
}
use maia.Base.Result.{Result, ok, raised, assertion_error}
use maia.Pytree.Node.{Node, node, nil, get_name}
use maia.Pytree.Access.{is_valid_name}
use maia.Pytree.Access.Laws.{from_list}
use maia.Pytree.Walk.Predicate.{Libraries}
use maia.Sids.Arrays.{Arrays, get_text, first_of_children, get_label}
use maia.Sids.LiteralLaws.{has_wildcard, get_child_from_name-literal, get_child_from_label-literal}
use maia.Sids.Presets.{allowed_bc, allowed_loc, reshaped, can_reshape}
use maia.Sids.Subset.{one_of, text_or_vertex, get_patch, grid_location}
use maia.Sids.BcNodes.{
  location_node, family_node, location_nodes, family_nodes, patch_nodes, allowed_or_none,
  both_given, bc_node, built_node-bc_node, new_bc-alone,
}
use maia.Sids.Building.{is_long}
use maia.Sids.ZonePresets.{new_bc}

-- A text of visible characters of ASCII, which reading a text back does not strip.
abbrev pub is_visible : Text → Bool
is_visible [] = true
is_visible (c ∷ t) = leb 33 c && (leb c 126 && is_visible t)

all_visible : List Text → Bool
all_visible [] = true
all_visible (t ∷ names) = is_visible t && all_visible names

visible_among :
    (names : List Text) (t : Text)
    → all_visible names ≡ true
    → text_mem t names ≡ true
    → is_visible t ≡ true
unfolding all_visible
visible_among [] t h m = cc
visible_among (s ∷ names) t h m = elim (Bool-cases (text_eq t s)) [
  | inl e ↦ rw ((text_eq_iff t s).0 e) (ground arith)
  | inr e ↦ visible_among names t (ground arith) (rw e at m)
]

allowed_bc_visible : all_visible allowed_bc ≡ true
unfolding all_visible
allowed_bc_visible = refl

allowed_loc_visible : all_visible allowed_loc ≡ true
unfolding all_visible
allowed_loc_visible = refl

module _ {V : Type 0} (lib : Libraries V) (arr : Arrays V)
    (literal : (s pattern : Text)
      → has_wildcard pattern ≡ false
      → lib.fnmatch s pattern ≡ text_eq s pattern) where
  -- The node of a patch that was given as a list or as a range.
  abbrev pub patch_node : Option V → Option V → Result (Node V)
  patch_node none none = raised assertion_error
  patch_node (some r) none =
      ok (node (text "PointRange") (reshaped lib.is_sids arr (some r)) nil (text "IndexRange_t"))
  patch_node none (some l) = ok (node (text "PointList") (some l) nil (text "IndexArray_t"))
  patch_node (some r) (some l) = raised assertion_error

  new_bc_node :
      (name type : Text) (r l : Option V) (loc family : Option Text)
      → is_valid_name name false ≡ true
      → text_mem type allowed_bc ≡ true
      → allowed_or_none loc ≡ true
      → both_given r l ≡ false
      → can_reshape lib.is_sids arr r ≡ true
      → new_bc lib.is_sids arr name type
          (record { point_range = r; point_list = l })
          loc
          family
          none
        ≡ (none, ok (bc_node lib.is_sids arr name type r l loc family, is_long name))
  new_bc_node name type r l loc family v t w one even =
      new_bc-alone lib.is_sids arr name type r l loc family v t w even
      ∙ rw (built_node-bc_node lib.is_sids arr name type r l loc family one, one) (ground arith)

  abbrev located : Option Text → Text
  located none = text "Vertex"
  located (some t) = t

  -- A search that passes over the location and the family.
  first_after :
      (test : Node V → Bool) (loc family : Option Text) (cs : List (Node V))
      → ((t : Text) → test (location_node lib.is_sids arr t) ≡ false)
      → ((t : Text) → test (family_node lib.is_sids arr t) ≡ false)
      → first_of_children test (
          from_list
            (location_nodes lib.is_sids arr loc ++ (family_nodes lib.is_sids arr family ++ cs)))
        ≡ first_of_children test (from_list cs)
  first_after test none none cs a b = refl
  first_after test none (some f) cs a b = rw (b f) refl
  first_after test (some x) none cs a b = rw (a x) refl
  first_after test (some x) (some f) cs a b = rw (a x, b f) refl

  named : Text → Node V → Bool
  named name c = text_eq (get_name c) name

  patch_children :
      (r l : Option V)
      → both_given r l ≡ false
      → one_of lib arr
          (first_of_children
            (named (text "PointList"))
            (from_list (patch_nodes lib.is_sids arr r l)))
          (first_of_children
            (named (text "PointRange"))
            (from_list (patch_nodes lib.is_sids arr r l)))
        ≡ patch_node r l
  unfolding named text_eq
  patch_children none none h = refl
  patch_children none (some l) h = refl
  patch_children (some r) none h = refl
  patch_children (some r) (some l) h = cc

  patch_of_bc :
      (name type : Text) (r l : Option V) (loc family : Option Text)
      → both_given r l ≡ false
      → get_patch lib arr (bc_node lib.is_sids arr name type r l loc family) ≡ patch_node r l
  unfolding get_patch named maia.Base.text_eq
  patch_of_bc name type r l loc family h =
      let n = bc_node lib.is_sids arr name type r l loc family in
      let after =
        λ (t : Text). first_after (named t) loc family (patch_nodes lib.is_sids arr r l) in
      rw
        (
          get_child_from_name-literal lib literal (text "PointList") refl n,
          get_child_from_name-literal lib literal (text "PointRange") refl n,
          after (text "PointList") (λ t. refl) (λ t. refl),
          after (text "PointRange") (λ t. refl) (λ t. refl),
        )
        (patch_children r l h)

  labelled : Text → Node V → Bool
  labelled label c = text_eq (get_label c) label

  first_location :
      (r l : Option V) (loc family : Option Text)
      → first_of_children (labelled (text "GridLocation_t")) (
          from_list (
            location_nodes lib.is_sids arr loc
            ++ (family_nodes lib.is_sids arr family ++ patch_nodes lib.is_sids arr r l)))
        ≡ head? (location_nodes lib.is_sids arr loc)
  unfolding labelled maia.Base.text_eq
  first_location r l (some t) family = refl
  first_location none none none none = refl
  first_location none none none (some f) = refl
  first_location none (some l) none none = refl
  first_location none (some l) none (some f) = refl
  first_location (some r) l none none = refl
  first_location (some r) l none (some f) = refl

  module _
      (text_back : (t : Text) → is_visible t ≡ true → arr.text_of (arr.from_text t) ≡ some t) where
    located_text :
        (loc : Option Text)
        → allowed_or_none loc ≡ true
        → text_or_vertex lib arr (head? (location_nodes lib.is_sids arr loc)) ≡ some (located loc)
    unfolding get_text mathlib.Core.Option.bind
    located_text none h = refl
    located_text (some t) h = text_back t (visible_among allowed_loc t allowed_loc_visible h)

    location_of_bc :
        (name type : Text) (r l : Option V) (loc family : Option Text)
        → allowed_or_none loc ≡ true
        → grid_location lib arr (bc_node lib.is_sids arr name type r l loc family)
          ≡ ok (some (located loc))
    unfolding grid_location labelled maia.Base.text_eq
    location_of_bc name type r l loc family h =
        rw
          (
            get_child_from_label-literal lib literal (text "GridLocation_t") refl
                (bc_node lib.is_sids arr name type r l loc family),
            first_location r l loc family,
          )
          (ap ok (located_text loc h))

    -- Where at most one of `point_range` and `point_list` is given, and a `point_range` can be reshaped
    -- to pairs, `new_BC` with an admissible name, type and location and no parent gives a boundary
    -- condition, with a warning exactly if its name has more than 32 characters. Its patch is the node of the
    -- range or of the list that was given, and asking for it fails if none was; its location is the
    -- one given, else `Vertex`; its value is the type.
    pub new_bc-inspected :
        (name type : Text) (r l : Option V) (loc family : Option Text)
        → is_valid_name name false ≡ true
        → text_mem type allowed_bc ≡ true
        → allowed_or_none loc ≡ true
        → both_given r l ≡ false
        → can_reshape lib.is_sids arr r ≡ true
        → (n : Node V) × (new_bc lib.is_sids arr name type
              (record { point_range = r; point_list = l })
              loc
              family
              none
            ≡ (none, ok (n, is_long name)))
          × (get_patch lib arr n ≡ patch_node r l)
          × (grid_location lib arr n ≡ ok (some (located loc)))
          × (get_text arr n ≡ some type)
    unfolding get_text mathlib.Core.Option.bind
    new_bc-inspected name type r l loc family v t w one even = (
      bc_node lib.is_sids arr name type r l loc family,
      new_bc_node name type r l loc family v t w one even,
      patch_of_bc name type r l loc family one,
      location_of_bc name type r l loc family w,
      text_back type (visible_among allowed_bc type allowed_bc_visible t),
    )
