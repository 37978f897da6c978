-- ===== src/Pytree/Access/Copies.antt =====
-- Copies have the content of the tree that they were made from.
use mathlib.Core.Option
use maia.Base.{
  ◌≡◌, refl, sym, ap, ◌∙◌, Bool, true, false, ◌&&◌, Option, none, some, if◌then◌else◌, Bool-cases,
  inl, inr, Text, [],
}
use maia.Base.Result.{ok, raised, value_error}
use maia.Pytree.Node.{Node, node, Children, nil, cons}
use maia.Pytree.Access.{
  is_valid_name, is_valid_label, append_child, shallow_copy, shallow_copies, deep_copy, deep_copies,
}
use maia.Pytree.Access.Laws.{new_node_lem}

module _ {V : Type 0} where
  -- The children of both, the second behind the first.
  abbrev pub join : Children V → Children V → Children V
  join nil ds = ds
  join (cons c cs) ds = cons c (join cs ds)

  pub join-nil : (cs : Children V) → join cs nil ≡ cs
  join-nil nil = refl
  join-nil (cons c cs) = ap (cons c) (join-nil cs)

  pub join-append_child :
      (cs : Children V) (c : Node V) (ds : Children V)
      → join (append_child cs c) ds ≡ join cs (cons c ds)
  unfolding append_child
  join-append_child nil c ds = refl
  join-append_child (cons d cs) c ds = ap (cons d) (join-append_child cs c ds)

  mutual
    unfolding shallow_copy

    shallow_copy-eq_self : (n : Node V) → shallow_copy n ≡ n
    shallow_copy-eq_self (node n v cs l) =
        ap (λ (ds : Children V). node n v ds l) (shallow_copies-join cs nil)

    shallow_copies-join : (cs out : Children V) → shallow_copies cs out ≡ join out cs
    shallow_copies-join nil out = sym (join-nil out)
    shallow_copies-join (cons c cs) out =
        shallow_copies-join cs (append_child out (shallow_copy c))
        ∙ rw (shallow_copy-eq_self c) (join-append_child out c cs)

  -- `shallow_copy` gives a tree of the same names, values, labels and children.
  shallow_copy-same : (n : Node V) → shallow_copy n ≡ n
  shallow_copy-same n = shallow_copy-eq_self n

module _ {V : Type 0} (is_sids : Text → Bool) (copy : V → V)
    (copy-same : (v : V) → copy v ≡ v) where
  -- Every name and every label of the tree is one that the setters accept.
  mutual
    pub all_accepted : Node V → Bool
    all_accepted (node n v cs l) =
        (is_valid_name n false && is_valid_label is_sids l false) && children_accepted cs

    pub children_accepted : Children V → Bool
    children_accepted nil = true
    children_accepted (cons c cs) = all_accepted c && children_accepted cs

  map-copy : (v : Option V) → Option.map copy v ≡ v
  map-copy none = refl
  map-copy (some v) = ap some (copy-same v)

  mutual
    unfolding deep_copy all_accepted

    deep_copy_cases :
        (n : Node V)
        → deep_copy is_sids copy n ≡ (if all_accepted n then ok n else raised value_error)
    deep_copy_cases (node n v cs l) =
        rw (new_node_lem is_sids n l none [])
          (elim (Bool-cases (is_valid_name n false && is_valid_label is_sids l false)) [
            | inl e ↦ rw (e, map-copy v) (deep_copies_cases cs n v nil l)
            | inr e ↦ rw e refl
          ])

    deep_copies_cases :
        (cs : Children V) (n : Text) (v : Option V) (out : Children V) (l : Text)
        → deep_copies is_sids copy cs (node n v out l)
          ≡ (if children_accepted cs then ok (node n v (join out cs) l) else raised value_error)
    deep_copies_cases nil n v out l = rw (join-nil out)
    deep_copies_cases (cons c cs) n v out l =
        rw (deep_copy_cases c) (elim (Bool-cases (all_accepted c)) [
          | inl e ↦
              rw (e, ← join-append_child out c cs) (deep_copies_cases cs n v (append_child out c) l)
          | inr e ↦ rw e refl
        ])

  -- `deep_copy` gives a tree of the same content if every name and label in it passes the checks
  -- of the setters, and raises `ValueError` otherwise, where a copied array equals the array.
  pub deep_copy_lem :
      (n : Node V)
      → deep_copy is_sids copy n ≡ (if all_accepted n then ok n else raised value_error)
  deep_copy_lem n = deep_copy_cases n
