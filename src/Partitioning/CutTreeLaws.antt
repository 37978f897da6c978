-- ===== src/Partitioning/CutTreeLaws.antt =====
-- A refinement of a cut tree ends and adds one leaf.
use maia.Base.{
  ℕ, zero, suc, ◌+◌, ◌≤◌, ◌<◌, ltb, ◌≡◌, refl, List, [], ◌∷◌, ◌++◌, Bool, true, false, Option, none,
  some, if◌then◌else◌, length, get_elem?, map, arith,
}
use mathlib.Core.Option
use maia.Partitioning.CutTree.{
  Cut, Dims, children, init_cut_tree, reset_sub_tree, sum_leaves, weight, least_from,
  child_with_least_leaves, in_path, or_top, select_insertion, insertion,
}
use maia.Utils.Lists.{sum}

abbrev pub Each : {A : Type 0} → (A → Type 0) → List A → Type 0
Each P [] = Unit
Each P (x ∷ xs) = P x × Each P xs

-- Every node at the last level has a leaf.
abbrev pub IsFilled : (d : ℕ) → Cut d → Type 0
IsFilled zero n = 1 ≤ n
IsFilled (suc d) (c, cs) = IsFilled d c × Each (IsFilled d) cs

-- How many nodes are at the last level.
abbrev pub n_ends : (d : ℕ) → Cut d → ℕ
n_ends zero n = 1
n_ends (suc d) (c, cs) = n_ends d c + sum (map (n_ends d) cs)

-- A path from the node to a node in its tree.
abbrev pub IsPlace : (d : ℕ) → Cut d → List ℕ → Type 0
IsPlace d t [] = Unit
IsPlace zero t (i ∷ path) = ⊥
IsPlace (suc d) t (i ∷ path) = (c : Cut d) × (get_elem? (children t) i ≡ some c) × IsPlace d c path

pub init_cut_tree-IsFilled : (d : ℕ) → IsFilled d (init_cut_tree d)
unfolding init_cut_tree
init_cut_tree-IsFilled zero = omega arith
init_cut_tree-IsFilled (suc d) = (init_cut_tree-IsFilled d, tt)

pub sum_leaves-init_cut_tree : (d : ℕ) → sum_leaves d (init_cut_tree d) ≡ 1
unfolding init_cut_tree sum_leaves
sum_leaves-init_cut_tree zero = refl
sum_leaves-init_cut_tree (suc d) = omega (arith, sum_leaves-init_cut_tree d)

sum-map_le :
    {A : Type 0} (f g : A → ℕ) (P : A → Type 0)
    → ((x : A) → P x → f x ≤ g x)
    → (xs : List A) → Each P xs
    → sum (map f xs) ≤ sum (map g xs)
sum-map_le f g P h [] e = omega arith
sum-map_le f g P h (x ∷ xs) e = omega (arith, h x e.0, sum-map_le f g P h xs e.1)

pub n_ends-sum_leaves : (d : ℕ) (t : Cut d) → IsFilled d t → n_ends d t ≤ sum_leaves d t
unfolding sum_leaves
n_ends-sum_leaves zero n f = f
n_ends-sum_leaves (suc d) (c, cs) f = omega (
  arith,
  n_ends-sum_leaves d c f.0,
  sum-map_le (n_ends d) (sum_leaves d) (IsFilled d) (n_ends-sum_leaves d) cs f.1,
)

pub n_ends-init_cut_tree : (d : ℕ) → n_ends d (init_cut_tree d) ≡ 1
unfolding init_cut_tree
n_ends-init_cut_tree zero = refl
n_ends-init_cut_tree (suc d) = omega (arith, n_ends-init_cut_tree d)

pub Each-append :
    {A : Type 0} (P : A → Type 0) (xs ys : List A) → Each P xs → Each P ys → Each P (xs ++ ys)
Each-append P [] ys a b = b
Each-append P (x ∷ xs) ys a b = (a.0, Each-append P xs ys a.1 b)

Each-map :
    {A : Type 0} (P : A → Type 0) (f : A → A)
    → ((x : A) → P (f x))
    → (xs : List A) → Each P (map f xs)
Each-map P f h [] = tt
Each-map P f h (x ∷ xs) = (h x, Each-map P f h xs)

pub reset_sub_tree-IsFilled : (d : ℕ) (t : Cut d) → IsFilled d (reset_sub_tree d t)
unfolding reset_sub_tree
reset_sub_tree-IsFilled zero n = omega arith
reset_sub_tree-IsFilled (suc d) (c, cs) = (
  reset_sub_tree-IsFilled d c,
  Each-map (IsFilled d) (reset_sub_tree d) (reset_sub_tree-IsFilled d) cs,
)

sum-map-map :
    {A : Type 0} (f g : A → ℕ) (k : A → A)
    → ((x : A) → f (k x) ≡ g x)
    → (xs : List A) → sum (map f (map k xs)) ≡ sum (map g xs)
sum-map-map f g k h [] = refl
sum-map-map f g k h (x ∷ xs) = omega (arith, h x, sum-map-map f g k h xs)

-- A tree that was reset has one leaf for each node at the last level.
pub sum_leaves-reset_sub_tree : (d : ℕ) (t : Cut d) → sum_leaves d (reset_sub_tree d t) ≡ n_ends d t
unfolding reset_sub_tree sum_leaves
sum_leaves-reset_sub_tree zero n = refl
sum_leaves-reset_sub_tree (suc d) (c, cs) = omega (
  arith,
  sum_leaves-reset_sub_tree d c,
  sum-map-map (sum_leaves d) (n_ends d) (reset_sub_tree d) (sum_leaves-reset_sub_tree d) cs,
)

pub n_ends-reset_sub_tree : (d : ℕ) (t : Cut d) → n_ends d (reset_sub_tree d t) ≡ n_ends d t
unfolding reset_sub_tree
n_ends-reset_sub_tree zero n = refl
n_ends-reset_sub_tree (suc d) (c, cs) = omega (
  arith,
  n_ends-reset_sub_tree d c,
  sum-map-map (n_ends d) (n_ends d) (reset_sub_tree d) (n_ends-reset_sub_tree d) cs,
)

pub sum-map-append :
    {A : Type 0} (f : A → ℕ) (xs ys : List A)
    → sum (map f (xs ++ ys)) ≡ sum (map f xs) + sum (map f ys)
sum-map-append f [] ys = omega arith
sum-map-append f (x ∷ xs) ys = omega (arith, sum-map-append f xs ys)

least_from-bound :
    (d best : ℕ) (candidate : Cut d) (i : ℕ) (cs : List (Cut d))
    → best < i + length cs
    → least_from d best candidate i cs < i + length cs
unfolding least_from
least_from-bound d best candidate i [] h = h
least_from-bound d best candidate i (c ∷ cs) h =
    let found = ltb (sum_leaves d c) (sum_leaves d candidate) in
    let g : (if found then i else best) < suc i + length cs = ground arith in
    let r =
      least_from-bound d (if found then i else best) (if found then c else candidate) (suc i) cs
        g in
    omega arith

get_elem?_total :
    {A : Type 0} → (xs : List A) (i : ℕ) → i < length xs → (x : A) × (get_elem? xs i ≡ some x)
get_elem?_total [] i h = absurd (omega arith)
get_elem?_total (x ∷ xs) zero h = (x, refl)
get_elem?_total (x ∷ xs) (suc i) h = get_elem?_total xs i (omega arith)

least-child :
    (d : ℕ) (t : Cut (suc d))
    → (c : Cut d) × (get_elem? (children t) (child_with_least_leaves d t) ≡ some c)
unfolding child_with_least_leaves
least-child d (c, cs) =
    let b = least_from-bound d 0 c 0 (c ∷ cs) (omega arith) in
    get_elem?_total (c ∷ cs) (least_from d 0 c 0 (c ∷ cs)) (omega arith)

module _ (less : ℕ × ℕ → ℕ × ℕ → Bool) where
  -- What the selection gives is no path, or a path to a node.
  IsChoice : (d : ℕ) → Cut d → Option (List ℕ) → Type 0
  IsChoice d t none = Unit
  IsChoice d t (some path) = IsPlace d t path

  here-IsChoice : (d : ℕ) (t : Cut d) (b : Bool) → IsChoice d t (if b then some [] else none)
  unfolding IsChoice
  here-IsChoice d t true = tt
  here-IsChoice d t false = tt

  below-IsChoice :
      (d : ℕ) (t : Cut (suc d)) (b : Bool) (i : ℕ) (c : Cut d)
      → get_elem? (children t) i ≡ some c
      → (r : Option (List ℕ)) → IsChoice d c r
      → IsChoice (suc d) t (in_path b i r)
  unfolding IsChoice
  below-IsChoice d t b i c e none h = here-IsChoice (suc d) t b
  below-IsChoice d t b i c e (some path) h = (c, e, h)

  select_insertion-IsChoice :
      (d : ℕ) (dims : Dims d) (t : Cut d) (w : ℕ × ℕ)
      → IsChoice d t (select_insertion less d dims t w)
  unfolding select_insertion Option.bind
  select_insertion-IsChoice zero dims n w = here-IsChoice zero n _
  select_insertion-IsChoice (suc d) dims t w =
      let (c, e) = least-child d t in
      let here = less (weight (suc d) dims t) w in
      let r = select_insertion-IsChoice d dims.1 c (if here then weight (suc d) dims t else w) in
      rw (select_insertion, e) (below-IsChoice d t here (child_with_least_leaves d t) c e _ r)

  or_top-IsPlace :
      (d : ℕ) (t : Cut d) (r : Option (List ℕ)) → IsChoice d t r → IsPlace d t (or_top r)
  unfolding IsChoice
  or_top-IsPlace d t none h = tt
  or_top-IsPlace d t (some path) h = h

  pub insertion-IsPlace :
      (d : ℕ) (dims : Dims d) (t : Cut d) → IsPlace d t (insertion less d dims t)
  insertion-IsPlace d dims t =
      or_top-IsPlace d t _ (select_insertion-IsChoice d dims t (weight d dims t))
