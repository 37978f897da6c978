-- ===== src/Sids/BcNodes.antt =====
-- The boundary conditions that `new_BC` builds, and the statements that fill them.
use maia.Base.{
  ◌≡◌, refl, ◌∙◌, not, ◌||◌, text_eq, arith, List, [], ◌∷◌, ◌++◌, Bool, true, false, Option, none,
  some, if◌then◌else◌, text_mem, Text, text,
}
use maia.Base.Result.{Result, ok, raised, assertion_error, ◌>>=◌}
use maia.Pytree.Node.{Node, node, nil, Children}
use maia.Pytree.Access.Laws.{from_list}
use maia.Sids.Arrays.{Arrays}
use maia.Pytree.Access.{is_valid_name, is_valid_label, append_child, get_names}
use maia.Sids.Building.{is_long}
use maia.Sids.AttachLaws.{grown_alone, grown_attached}
use maia.Sids.Presets.{allowed_bc, allowed_loc, reshaped, can_reshape}
use maia.Sids.ZonePresets.{Patch, bc_steps, new_bc}

-- The location is one that `new_GridLocation` takes.
abbrev pub allowed_or_none : Option Text → Bool
allowed_or_none none = true
allowed_or_none (some t) = text_mem t allowed_loc

abbrev pub both_given : {V : Type 0} → Option V → Option V → Bool
both_given (some r) (some l) = true
both_given (some r) none = false
both_given none l = false

module _ {V : Type 0} (is_sids : Text → Bool) (arr : Arrays V) where
  abbrev pub location_node : Text → Node V
  location_node t = node (text "GridLocation") (some (arr.from_text t)) nil (text "GridLocation_t")

  abbrev pub family_node : Text → Node V
  family_node t = node (text "FamilyName") (some (arr.from_text t)) nil (text "FamilyName_t")

  abbrev pub location_nodes : Option Text → List (Node V)
  location_nodes none = []
  location_nodes (some t) = location_node t ∷ []

  abbrev pub family_nodes : Option Text → List (Node V)
  family_nodes none = []
  family_nodes (some t) = family_node t ∷ []

  abbrev pub patch_nodes : Option V → Option V → List (Node V)
  patch_nodes none none = []
  patch_nodes (some r) l =
      node (text "PointRange") (reshaped is_sids arr (some r)) nil (text "IndexRange_t") ∷ []
  patch_nodes none (some l) = node (text "PointList") (some l) nil (text "IndexArray_t") ∷ []

  abbrev pub bc_node : Text → Text → Option V → Option V → Option Text → Option Text → Node V
  bc_node name type r l loc family =
      node name (some (arr.from_text type))
        (from_list (location_nodes loc ++ (family_nodes family ++ patch_nodes r l))) (text "BC_t")

  -- If both are given, neither is added.
  abbrev pub range_kept : Option V → Option V → Option V
  range_kept none l = none
  range_kept (some r) none = some r
  range_kept (some r) (some l) = none

  abbrev pub list_kept : Option V → Option V → Option V
  list_kept none l = l
  list_kept (some r) l = none

  abbrev pub built_node : Text → Text → Option V → Option V → Option Text → Option Text → Node V
  built_node name type r l loc family =
      bc_node name type (range_kept r l) (list_kept r l) loc family

  pub built_node-bc_node :
      (name type : Text) (r l : Option V) (loc family : Option Text)
      → both_given r l ≡ false
      → built_node name type r l loc family ≡ bc_node name type r l loc family
  built_node-bc_node name type none l loc family h = refl
  built_node-bc_node name type (some r) none loc family h = refl
  built_node-bc_node name type (some r) (some l) loc family h = cc

  abbrev pub outcome : Option V → Option V → Result Bool
  outcome r l = if both_given r l then raised assertion_error else ok false

  pub bc_steps_lem :
      (name type : Text) (r l : Option V) (loc family : Option Text)
      → allowed_or_none loc ≡ true
      → can_reshape is_sids arr r ≡ true
      → bc_steps is_sids arr
          (record { point_range = r; point_list = l })
          loc
          family
          (node name (some (arr.from_text type)) nil (text "BC_t"))
        ≡ (built_node name type r l loc family, outcome r l)
  unfolding bc_steps maia.Pytree.Access.attach maia.Base.text_eq is_long
  bc_steps_lem name type none none none none w z = refl
  bc_steps_lem name type none none none (some f) w z = refl
  bc_steps_lem name type none none (some x) none w z = rw w refl
  bc_steps_lem name type none none (some x) (some f) w z = rw w refl
  bc_steps_lem name type none (some l) none none w z = refl
  bc_steps_lem name type none (some l) none (some f) w z = refl
  bc_steps_lem name type none (some l) (some x) none w z = rw w refl
  bc_steps_lem name type none (some l) (some x) (some f) w z = rw w refl
  bc_steps_lem name type (some r) none none none w z = rw z refl
  bc_steps_lem name type (some r) none none (some f) w z = rw z refl
  bc_steps_lem name type (some r) none (some x) none w z = rw (w, z) refl
  bc_steps_lem name type (some r) none (some x) (some f) w z = rw (w, z) refl
  bc_steps_lem name type (some r) (some l) none none w z = refl
  bc_steps_lem name type (some r) (some l) none (some f) w z = refl
  bc_steps_lem name type (some r) (some l) (some x) none w z = rw w refl
  bc_steps_lem name type (some r) (some l) (some x) (some f) w z = rw w refl

  module _ (name type : Text) (r l : Option V) (loc family : Option Text)
      (valid : is_valid_name name false ≡ true) (known : text_mem type allowed_bc ≡ true)
      (located : allowed_or_none loc ≡ true) (even : can_reshape is_sids arr r ≡ true) where
    abbrev patch : Patch V
    patch = record { point_range = r; point_list = l }

    -- The name of the node is still to be checked.
    is_label : is_valid_label is_sids (text "BC_t") false ≡ true
    unfolding is_valid_label maia.Base.text_eq
    is_label = refl

    pub new_bc-alone : new_bc is_sids arr name type patch loc family none ≡ (
      none,
      outcome r l >>= λ w. ok (built_node name type r l loc family, (is_long name || false) || w),
    )
    unfolding new_bc
    new_bc-alone = rw known (
        grown_alone is_sids name (text "BC_t") (some (arr.from_text type)) valid is_label
          (text "ZoneBC_t" ∷ []) (bc_steps is_sids arr patch loc family)
        ∙ rw (bc_steps_lem name type r l loc family located even) refl)

    -- Under a parent without a child of its name, `new_BC` with an admissible name, type and location
    -- leaves the boundary condition as the last child, where a `point_range` can be reshaped to pairs.
    -- It warns exactly if its name has more than 32 characters or the parent is no `ZoneBC_t` node. If
    -- both `point_range` and `point_list` are given, it raises AssertionError, and the boundary
    -- condition that stays in the parent has no patch.
    pub new_bc-attached :
        (pn : Text) (pv : Option V) (pcs : Children V) (pl : Text)
        → text_mem name (get_names pcs) ≡ false
        → new_bc is_sids arr name type patch loc family (some (node pn pv pcs pl)) ≡ (
          some (node pn pv (append_child pcs (built_node name type r l loc family)) pl),
          (if both_given r l
              then raised assertion_error
              else ok (
                built_node name type r l loc family,
                is_long name || not (text_eq pl (text "ZoneBC_t")),
              )),
        )
    unfolding new_bc
    new_bc-attached pn pv pcs pl absent = rw known (
        grown_attached is_sids name (text "BC_t") (some (arr.from_text type)) valid is_label pn pv
          pcs pl absent (text "ZoneBC_t" ∷ []) (bc_steps is_sids arr patch loc family)
        ∙ rw (bc_steps_lem name type r l loc family located even) (ground arith))
