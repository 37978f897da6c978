-- ===== src/Sids/Components.antt =====
-- The merged groups are the connected components: no zone is in two, no group is split, and no zone
-- is put together with one that it has no connection to.
use maia.Base.{
  ◌≤◌, ◌≡◌, refl, sym, ◌∙◌, ◌⊎◌, List, [], ◌∷◌, ◌++◌, true, map, any, Text, text_eq_self,
  Bool-cases, inl, inr, arith,
}
use maia.Base.Result.{ok}
use maia.Graph.Zip.{text_lt, insert, sorted}
use maia.Sids.Groups.{Group, has, merge_zones}
use maia.Sids.GroupLaws.{others, merged_with, merged_at, merged_each, merge_each_lem}
use maia.Sids.Holders.{holders, has-append_all, holders-merged_each_one}

-- Every path of the one group is in the other.
abbrev pub IsWithin : Group → Group → Type 0
IsWithin g h = (path : Text) → has path g ≡ true → has path h ≡ true

-- Some group of the list contains the group.
abbrev pub IsKept : Group → List Group → Type 0
IsKept g [] = ⊥
IsKept g (h ∷ groups) = IsWithin g h ⊎ IsKept g groups

abbrev pub All {ℓ} : (Group → Type ℓ) → List Group → Type ℓ
All P [] = Unit
All P (g ∷ groups) = P g × All P groups

All-map :
    (P Q : Group → Type 0) (f : Group → Group) (groups : List Group)
    → ((g : Group) → P g → Q (f g))
    → All P groups
    → All Q (map f groups)
All-map P Q f [] k a = tt
All-map P Q f (g ∷ groups) k a = (k g a.0, All-map P Q f groups k a.1)

All-weaken :
    (P Q : Group → Type 0) (groups : List Group)
    → ((g : Group) → P g → Q g)
    → All P groups
    → All Q groups
All-weaken P Q [] k a = tt
All-weaken P Q (g ∷ groups) k a = (k g a.0, All-weaken P Q groups k a.1)

All-append : (P : Group → Type 0) (gs hs : List Group) → All P gs → All P hs → All P (gs ++ hs)
All-append P [] hs a b = b
All-append P (g ∷ gs) hs a b = (a.0, All-append P gs hs a.1 b)

All-others :
    (P : Group → Type 0) (q : Text) (groups : List Group) → All P groups → All P (others q groups)
All-others P q [] a = tt
All-others P q (g ∷ groups) a = elim (Bool-cases (has q g)) [
  | inl h ↦ rw h (All-others P q groups a.1)
  | inr h ↦ rw h (a.0, All-others P q groups a.1)
]

IsKept-append_left : (g : Group) (gs hs : List Group) → IsKept g gs → IsKept g (gs ++ hs)
IsKept-append_left g [] hs k = absurd k
IsKept-append_left g (h ∷ gs) hs (inl w) = inl w
IsKept-append_left g (h ∷ gs) hs (inr k) = inr (IsKept-append_left g gs hs k)

IsKept-append_right : (g : Group) (gs hs : List Group) → IsKept g hs → IsKept g (gs ++ hs)
IsKept-append_right g [] hs k = k
IsKept-append_right g (h ∷ gs) hs k = inr (IsKept-append_right g gs hs k)

IsKept-below :
    (g h : Group) (groups : List Group) → IsWithin g h → IsKept h groups → IsKept g groups
IsKept-below g h [] w k = absurd k
IsKept-below g h (k ∷ groups) w (inl v) = inl (λ path m. v path (w path m))
IsKept-below g h (k ∷ groups) w (inr v) = inr (IsKept-below g h groups w v)

IsKept-through :
    (g : Group) (hs ks : List Group) → IsKept g hs → All (λ h. IsKept h ks) hs → IsKept g ks
IsKept-through g [] ks k a = absurd k
IsKept-through g (h ∷ hs) ks (inl w) a = IsKept-below g h ks w a.0
IsKept-through g (h ∷ hs) ks (inr k) a = IsKept-through g hs ks k a.1

All-IsKept_self : (groups : List Group) → All (λ g. IsKept g groups) groups
All-IsKept_self [] = tt
All-IsKept_self (g ∷ groups) =
    (inl (λ path m. m), All-weaken _ _ groups (λ h k. inr k) (All-IsKept_self groups))

-- Where a group goes when the groups with `q` are merged.
abbrev IsPlaced : Text → List Group → Group → Type 0
IsPlaced q groups g =
    ((has q g ≡ true) × IsWithin g (merged_with q groups)) ⊎ IsKept g (others q groups)

IsPlaced-later :
    (q : Text) (x : Group) (groups : List Group) (g : Group)
    → IsPlaced q groups g
    → IsPlaced q (x ∷ groups) g
IsPlaced-later q x groups g placed = elim (Bool-cases (has q x)) [
  | inl h ↦ rw h (elim placed [
    | inl (m, w) ↦ inl (
      m,
      λ path k.
          let e = has-append_all path (merged_with q groups) x in let l = w path k in ground arith,
    )
    | inr k ↦ inr k
  ])
  | inr h ↦ rw h (elim placed [ inl w ↦ inl w | inr k ↦ inr (inr k) ])
]

IsPlaced-first : (q : Text) (g : Group) (groups : List Group) → IsPlaced q (g ∷ groups) g
IsPlaced-first q g groups = elim (Bool-cases (has q g)) [
  | inl h ↦
      rw h
        (inl (refl, λ path k. let e = has-append_all path (merged_with q groups) g in ground arith))
  | inr h ↦ rw h (inr (inl (λ path m. m)))
]

All-IsPlaced : (q : Text) (groups : List Group) → All (IsPlaced q groups) groups
All-IsPlaced q [] = tt
All-IsPlaced q (g ∷ groups) = (
  IsPlaced-first q g groups,
  All-weaken _ _ groups (IsPlaced-later q g groups) (All-IsPlaced q groups),
)

merged_at-IsKept :
    (q : Text) (groups : List Group) → All (λ g. IsKept g (merged_at q groups)) groups
merged_at-IsKept q groups = elim (Bool-cases (any (has q) groups)) [
  | inl h ↦ rw h (
      All-weaken _ _ groups
        (λ g placed. elim placed [
          | inl (m, w) ↦ IsKept-append_right g (others q groups) (merged_with q groups ∷ []) (inl w)
          | inr k ↦ IsKept-append_left g (others q groups) (merged_with q groups ∷ []) k
        ])
        (All-IsPlaced q groups))
  | inr h ↦ rw h (All-IsKept_self groups)
]

merged_each-IsKept :
    (paths : List Text) (groups : List Group)
    → All (λ g. IsKept g (merged_each paths groups)) groups
merged_each-IsKept [] groups = All-IsKept_self groups
merged_each-IsKept (q ∷ paths) groups =
    All-weaken _ _ groups
      (λ g k. IsKept-through g _ _ k (merged_each-IsKept paths (merged_at q groups)))
      (merged_at-IsKept q groups)

has-insert : (path t : Text) (g : Group) → has path (insert text_lt t g) ≡ has path (t ∷ g)
unfolding insert
has-insert path t [] = refl
has-insert path t (s ∷ g) = ground (arith, has-insert path t g)

has-sorted : (path : Text) (g : Group) → has path (sorted text_lt g) ≡ has path g
unfolding sorted
has-sorted path [] = refl
has-sorted path (t ∷ g) = has-insert path t (sorted text_lt g) ∙ rw (has-sorted path g) refl

holders-sorted :
    (path : Text) (groups : List Group)
    → holders path (map (sorted text_lt) groups) ≡ holders path groups
holders-sorted path [] = refl
holders-sorted path (g ∷ groups) =
    rw (has-sorted path g) (ground (arith, holders-sorted path groups))

IsKept-sorted :
    (g : Group) (groups : List Group) → IsKept g groups → IsKept g (map (sorted text_lt) groups)
IsKept-sorted g [] k = k
IsKept-sorted g (h ∷ groups) (inl w) = inl (λ path m. has-sorted path h ∙ w path m)
IsKept-sorted g (h ∷ groups) (inr k) = inr (IsKept-sorted g groups k)

-- Each of the paths is in at most one of the groups.
abbrev pub AreApart : List Text → List Group → Type 0
AreApart [] groups = Unit
AreApart (path ∷ paths) groups = (holders path groups ≤ 1) × AreApart paths groups

apart_each :
    (paths : List Text) (groups : List Group)
    → ((path : Text) → has path paths ≡ true → holders path groups ≤ 1)
    → AreApart paths groups
apart_each [] groups k = tt
apart_each (path ∷ paths) groups k =
    (k path (rw (text_eq_self path) refl), apart_each paths groups (λ q m. k q (ground arith)))

-- Any two paths of the group are related.
abbrev pub IsRelated : (Text → Text → Type 0) → Group → Type 0
IsRelated R g = (s t : Text) → has s g ≡ true → has t g ≡ true → R s t

module _ (R : Text → Text → Type 0) (mirror : (s t : Text) → R s t → R t s)
    (through : (s t u : Text) → R s t → R t u → R s u) where
  merged_with-IsRelated :
      (q : Text) (groups : List Group)
      → All (IsRelated R) groups
      → (t : Text) → has t (merged_with q groups) ≡ true
      → R q t
  merged_with-IsRelated q [] a t m = cc
  merged_with-IsRelated q (g ∷ groups) a t m = elim (Bool-cases (has q g)) [
    | inl h ↦
        let e = has-append_all t (merged_with q groups) g in
        elim (Bool-cases (has t g)) [
          | inl k ↦ a.0 q t h k
          | inr k ↦ merged_with-IsRelated q groups a.1 t (let m' = rw h at m in ground arith)
        ]
    | inr h ↦ merged_with-IsRelated q groups a.1 t (rw h at m)
  ]

  merged_at-IsRelated :
      (q : Text) (groups : List Group)
      → All (IsRelated R) groups
      → All (IsRelated R) (merged_at q groups)
  merged_at-IsRelated q groups a = elim (Bool-cases (any (has q) groups)) [
    | inl h ↦ rw h (
        All-append _ (others q groups) (merged_with q groups ∷ []) (All-others _ q groups a) (
          λ s t l m.
              through s q t (mirror q s (merged_with-IsRelated q groups a s l))
                (merged_with-IsRelated q groups a t m),
          tt,
        ))
    | inr h ↦ rw h a
  ]

  merged_each-IsRelated :
      (paths : List Text) (groups : List Group)
      → All (IsRelated R) groups
      → All (IsRelated R) (merged_each paths groups)
  merged_each-IsRelated [] groups a = a
  merged_each-IsRelated (q ∷ paths) groups a =
      merged_each-IsRelated paths (merged_at q groups) (merged_at-IsRelated q groups a)

  -- Merging never raises. The groups that it gives are the classes of the zones: every group from
  -- before is within one of them, a zone that the merging looks for is in at most one of them, and
  -- two zones of one of them are related by every symmetric and transitive relation that relates the
  -- zones of each group from before.
  pub merge_zones-components :
      (paths : List Text) (groups : List Group)
      → All (IsRelated R) groups
      → (merged : List Group) × (merge_zones paths groups ≡ ok merged)
        × All (λ g. IsKept g merged) groups
        × AreApart paths merged
        × All (IsRelated R) merged
  unfolding merge_zones
  merge_zones-components paths groups a =
      let last = merged_each paths groups in
      (
        map (sorted text_lt) last,
        rw (merge_each_lem paths groups) refl,
        All-weaken _ _ groups (λ g k. IsKept-sorted g last k) (merged_each-IsKept paths groups),
        apart_each paths _
            (λ path m. rw (holders-sorted path last) (holders-merged_each_one path paths groups m)),
        All-map (IsRelated R) (IsRelated R) (sorted text_lt) last
            (λ g r s t l m. r s t (sym (has-sorted s g) ∙ l) (sym (has-sorted t g) ∙ m))
            (merged_each-IsRelated paths groups a),
      )
