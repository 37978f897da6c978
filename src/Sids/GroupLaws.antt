-- ===== src/Sids/GroupLaws.antt =====
-- Merging the groups of zones ends well, and leaves the connected components.
use mathlib.Core.List.{reverse, reverse-cons}
use maia.Base.{
  ℕ, suc, ◌≡◌, refl, ap, ◌∙◌, List, [], ◌∷◌, ◌++◌, true, false, not, if◌then◌else◌, length, filter,
  any, length-append, append_assoc, Text, Bool-cases, inl, inr, arith,
}
use maia.Base.Result.{ok, Result-cases, ◌>>=◌}
use maia.Utils.Lists.{is_not_empty}
use maia.Sids.Groups.{
  Group, has, append_all, places_of, pop, pop_each, merge_places, merge_at, merge_each,
}

-- The groups without the path, and what the others are merged to, from the last to the first.
abbrev pub others : Text → List Group → List Group
others path groups = filter (λ g. not (has path g)) groups

abbrev pub merged_with : Text → List Group → Group
merged_with path [] = []
merged_with path (g ∷ groups) =
    let later = merged_with path groups in if has path g then append_all later g else later

abbrev pub merged_at : Text → List Group → List Group
merged_at path groups =
    if any (has path) groups then others path groups ++ (merged_with path groups ∷ []) else groups

abbrev pub merged_each : List Text → List Group → List Group
merged_each [] groups = groups
merged_each (path ∷ paths) groups = merged_each paths (merged_at path groups)

pop-append :
    (before : List Group) (g : Group) (after : List Group)
    → pop (before ++ (g ∷ after)) (length before) ≡ ok (g, before ++ after)
unfolding pop
pop-append [] g after = refl
pop-append (h ∷ before) g after = rw (pop-append before g after) refl

pop_each-append :
    (is js : List ℕ) (groups : List Group) (group : Group)
    → pop_each (is ++ js) groups group ≡ (pop_each is groups group >>= λ r. pop_each js r.0 r.1)
unfolding pop_each
pop_each-append [] js groups group = refl
pop_each-append (i ∷ is) js groups group = elim (Result-cases (pop groups i)) [
  | inl (r, e) ↦ rw e (pop_each-append is js r.1 (append_all group r.0))
  | inr (e, h) ↦ rw h refl
]

pop_each-places_of :
    (path : Text) (before groups : List Group)
    → pop_each (reverse (places_of path (length before) groups)) (before ++ groups) []
      ≡ ok (before ++ others path groups, merged_with path groups)
unfolding places_of
pop_each-places_of path before [] = unfold pop_each in refl
pop_each-places_of path before (g ∷ groups) =
    let next = before ++ (g ∷ []) in
    let n : length next ≡ suc (length before) = length-append before (g ∷ []) ∙ omega arith in
    let flat : next ++ groups ≡ before ++ (g ∷ groups) = append_assoc before (g ∷ []) groups in
    let rest = rw n at (rw flat at (pop_each-places_of path next groups)) in
    let is = places_of path (suc (length before)) groups in
    elim (Bool-cases (has path g)) [
      | inl h ↦
          let gap = append_assoc before (g ∷ []) (others path groups) in
          rw (h, reverse-cons (length before) is)
            (rw
              (
                pop_each-append (reverse is) (length before ∷ []) (before ++ (g ∷ groups)) [],
                rest,
                gap,
              )
              (unfold pop_each in rw (pop-append before g (others path groups)) refl))
      | inr h ↦ rw h (
          rest
          ∙ ap ok (
              ap (λ (gs : List Group). (gs, merged_with path groups))
                (append_assoc before (g ∷ []) (others path groups))))
    ]

places_of-any :
    (path : Text) (i : ℕ) (groups : List Group)
    → is_not_empty (places_of path i groups) ≡ any (has path) groups
unfolding places_of
places_of-any path i [] = refl
places_of-any path i (g ∷ groups) = ground (arith, places_of-any path (suc i) groups)

merge_places_some :
    (is : List ℕ) (groups : List Group)
    → is_not_empty is ≡ true
    → merge_places is groups ≡ (pop_each (reverse is) groups [] >>= λ r. ok (r.0 ++ (r.1 ∷ [])))
merge_places_some [] groups h = cc
merge_places_some (i ∷ is) groups h = refl

merge_places_none :
    (is : List ℕ) (groups : List Group)
    → is_not_empty is ≡ false
    → merge_places is groups ≡ ok groups
merge_places_none [] groups h = refl
merge_places_none (i ∷ is) groups h = cc

merge_at_lem :
    (path : Text) (groups : List Group) → merge_at path groups ≡ ok (merged_at path groups)
unfolding merge_at
merge_at_lem path groups =
    let e = places_of-any path 0 groups in
    elim (Bool-cases (any (has path) groups)) [
      | inl h ↦
          rw h (merge_places_some _ groups (e ∙ h) ∙ rw (pop_each-places_of path [] groups) refl)
      | inr h ↦ rw h (merge_places_none _ groups (e ∙ h))
    ]

pub merge_each_lem :
    (paths : List Text) (groups : List Group)
    → merge_each paths groups ≡ ok (merged_each paths groups)
unfolding merge_each
merge_each_lem [] groups = refl
merge_each_lem (path ∷ paths) groups =
    rw (merge_at_lem path groups) (merge_each_lem paths (merged_at path groups))
