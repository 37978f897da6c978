-- ===== src/Sids/Holders.antt =====
-- How many groups hold a zone while the groups of `find_connected_zones` are merged.
use maia.Base.{
  ℕ, ◌+◌, ◌≤◌, ◌≡◌, refl, sym, ap, ◌∙◌, List, [], ◌∷◌, ◌++◌, Bool, true, false, ◌||◌, if◌then◌else◌,
  length, filter, any, length-append, filter-append, Text, text_eq, text_eq_iff, Bool-cases, inl,
  inr, arith,
}
use maia.Utils.Lists.{append_unique}
use maia.Sids.Groups.{Group, has, append_all}
use maia.Sids.GroupLaws.{others, merged_with, merged_at, merged_each}

-- How many of the groups hold the path.
abbrev pub holders : Text → List Group → ℕ
holders path groups = length (filter (has path) groups)

contains-append : (path : Text) (g h : List Text) → has path (g ++ h) ≡ (has path g || has path h)
contains-append path [] h = refl
contains-append path (p ∷ g) h = ground (arith, contains-append path g h)

has-append_unique :
    (path : Text) (g : List Text) (p : Text)
    → has path (append_unique text_eq g p) ≡ (has path g || text_eq p path)
unfolding append_unique
has-append_unique path g p = elim (Bool-cases (has p g)) [
  | inl h ↦ rw h (elim (Bool-cases (text_eq p path)) [
    | inl e ↦ let held : has path g ≡ true = rw (sym ((text_eq_iff p path).0 e)) h in rw held refl
    | inr e ↦ rw e (ground arith)
  ])
  | inr h ↦ rw (h, contains-append path g (p ∷ [])) (ground arith)
]

pub has-append_all :
    (path : Text) (g paths : List Text)
    → has path (append_all g paths) ≡ (has path g || has path paths)
unfolding append_all
has-append_all path g [] = ground arith
has-append_all path g (p ∷ paths) =
    rw (has-append_all path (append_unique text_eq g p) paths, has-append_unique path g p)
      (ground arith)

abbrev one_if : Bool → ℕ
one_if b = if b then 1 else 0

holders-merged_with :
    (path q : Text) (groups : List Group)
    → holders path (others q groups) + one_if (has path (merged_with q groups))
      ≤ holders path groups
holders-merged_with path q [] = omega arith
holders-merged_with path q (g ∷ groups) =
    let ih = holders-merged_with path q groups in
    let e = has-append_all path (merged_with q groups) g in ground arith

holders-others : (q : Text) (groups : List Group) → holders q (others q groups) ≡ 0
holders-others q [] = refl
holders-others q (g ∷ groups) = ground (arith, holders-others q groups)

holders-append :
    (path : Text) (gs hs : List Group) → holders path (gs ++ hs) ≡ holders path gs + holders path hs
holders-append path gs hs =
    ap length (filter-append (has path) gs hs)
    ∙ length-append (filter (has path) gs) (filter (has path) hs)

holders-merged_at :
    (path q : Text) (groups : List Group) → holders path (merged_at q groups) ≤ holders path groups
holders-merged_at path q groups =
    let e = holders-append path (others q groups) (merged_with q groups ∷ []) in
    let l = holders-merged_with path q groups in ground arith

holders_none : (q : Text) (groups : List Group) → any (has q) groups ≡ false → holders q groups ≡ 0
holders_none q [] h = refl
holders_none q (g ∷ groups) h = ground (arith, holders_none q groups)

holders-merged_at_self : (q : Text) (groups : List Group) → holders q (merged_at q groups) ≤ 1
holders-merged_at_self q groups =
    let e = holders-append q (others q groups) (merged_with q groups ∷ []) in
    let z = holders-others q groups in ground (arith, holders_none q groups)

holders-merged_each :
    (path : Text) (paths : List Text) (groups : List Group)
    → holders path (merged_each paths groups) ≤ holders path groups
holders-merged_each path [] groups = omega arith
holders-merged_each path (q ∷ paths) groups =
    let l = holders-merged_each path paths (merged_at q groups) in
    let m = holders-merged_at path q groups in omega arith

pub holders-merged_each_one :
    (path : Text) (paths : List Text) (groups : List Group)
    → has path paths ≡ true
    → holders path (merged_each paths groups) ≤ 1
holders-merged_each_one path [] groups h = cc
holders-merged_each_one path (q ∷ paths) groups h = elim (Bool-cases (text_eq q path)) [
  | inl e ↦
      let l = holders-merged_each path paths (merged_at q groups) in
      let same : q ≡ path = (text_eq_iff q path).0 e in
      let m : holders path (merged_at q groups) ≤ 1 =
        rw (← same) (holders-merged_at_self q groups) in
      omega arith
  | inr e ↦ holders-merged_each_one path paths (merged_at q groups) (rw e at h)
]
