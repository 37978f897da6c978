-- ===== src/Sids/AttachLaws.antt =====
-- A node that is attached to its parent when it is created, and then filled, is in the parent as it
-- is in the end.
use maia.Base.{
  ◌≡◌, refl, List, [], Bool, true, false, not, ◌||◌, Option, none, some, Text, text_mem,
}
use maia.Base.Result.{ok, ◌>>=◌}
use maia.Pytree.Node.{Node, node, Children, nil, cons}
use maia.Pytree.Access.{Outcome, is_valid_name, is_valid_label, append_child, get_names, new_node}
use maia.Pytree.Access.Laws.{new_node_lem}
use maia.Pytree.Update.{in_last}
use maia.Sids.Building.{is_long, Step, create, checked, grown, check_parent_label}

module _ {V : Type 0} where
  in_last-append_child :
      (step : Step V) (cs : Children V) (c : Node V)
      → in_last step (append_child cs c) ≡ (append_child cs (step c).0, (step c).1)
  unfolding in_last append_child
  in_last-append_child step nil c = refl
  in_last-append_child step (cons d nil) c = refl
  in_last-append_child step (cons d (cons e cs)) c =
      rw (in_last-append_child step (cons e cs) c) refl

  module _ (is_sids : Text → Bool) (name label : Text) (v : Option V)
      (valid : is_valid_name name false ≡ true)
      (good : is_valid_label is_sids label false ≡ true) where
    -- The node that is created.
    abbrev fresh : Node V
    fresh = node name v nil label

    pub create_alone : create is_sids name label v [] none ≡ (none, ok (fresh, is_long name))
    unfolding create
    create_alone = rw (new_node_lem is_sids name label v [], valid, good) refl

    module _ (pn : Text) (pv : Option V) (pcs : Children V) (pl : Text)
        (absent : text_mem name (get_names pcs) ≡ false) where
      pub create_attached :
          create is_sids name label v [] (some (node pn pv pcs pl))
          ≡ (some (node pn pv (append_child pcs fresh) pl), ok (fresh, is_long name))
      unfolding create new_node maia.Pytree.Access.attach maia.Pytree.Access.set_name
          maia.Pytree.Access.set_label
      create_attached = rw (valid, good, absent) refl

      pub grown_attached :
          (allowed : List Text) (step : Step V)
          → grown
              (checked
                (some (node pn pv pcs pl))
                allowed
                (create is_sids name label v [] (some (node pn pv pcs pl))))
              step
            ≡ (
              some (node pn pv (append_child pcs (step fresh).0) pl),
              ((step fresh).1 >>= λ w.
                  ok ((step fresh).0, (is_long name || not (text_mem pl allowed)) || w)),
            )
      unfolding grown checked check_parent_label
      grown_attached allowed step =
          rw create_attached (rw (in_last-append_child step pcs fresh) refl)

    pub grown_alone :
        (allowed : List Text) (step : Step V)
        → grown (checked none allowed (create is_sids name label v [] none)) step
          ≡ (none, ((step fresh).1 >>= λ w. ok ((step fresh).0, (is_long name || false) || w)))
    unfolding grown checked check_parent_label
    grown_alone allowed step = rw create_alone refl
