-- ===== src/Partitioning/Refine.antt =====
-- An insertion in a cut tree ends and adds one leaf.
use maia.Base.{
  ℕ, zero, suc, ◌+◌, ◌-◌, ◌≤◌, ◌<◌, ◌==◌, ◌≡◌, refl, sym, ap, List, [], ◌∷◌, ◌++◌, Bool, true,
  Option, some, get_elem?, map, Bool-cases, inl, inr, arith,
}
use mathlib.Core.Option
use mathlib.Core.Option.{some-injective, none-ne-some}
use maia.Partitioning.CutTree.{
  Cut, Dims, children, init_cut_tree, reset_sub_tree, sum_leaves, insertion, refill, change,
  in_child, insert_child_at, budget, refine_cut_tree,
}
use maia.Partitioning.CutTreeLaws.{
  Each, IsFilled, n_ends, IsPlace, init_cut_tree-IsFilled, sum_leaves-init_cut_tree,
  n_ends-sum_leaves, n_ends-init_cut_tree, Each-append, reset_sub_tree-IsFilled,
  sum_leaves-reset_sub_tree, n_ends-reset_sub_tree, sum-map-append, insertion-IsPlace,
}
use maia.Utils.Lists.{sum}

-- A tree of one more leaf, with as many children at least.
abbrev IsMore : (d : ℕ) → Cut d → Cut d → Type 0
IsMore d t u = (sum_leaves d u ≡ suc (sum_leaves d t)) × IsFilled d u × (n_ends d t ≤ n_ends d u)

change_total :
    (d : ℕ) (f : Cut d → Option (Cut d)) (c e : Cut d)
    → f c ≡ some e
    → IsMore d c e
    → (i : ℕ) (cs : List (Cut d)) → get_elem? cs i ≡ some c
    → Each (IsFilled d) cs
    → (es : List (Cut d)) × (change f i cs ≡ some es)
      × (sum (map (sum_leaves d) es) ≡ suc (sum (map (sum_leaves d) cs)))
      × Each (IsFilled d) es
      × (sum (map (n_ends d) cs) ≤ sum (map (n_ends d) es))
unfolding Option.bind
change_total d f c e h m i [] g a = absurd (none-ne-some c g)
change_total d f c e h m zero (x ∷ cs) g a =
    let s : x ≡ c = some-injective x c g in
    let w = ap (sum_leaves d) s in
    (
      e ∷ cs,
      rw (s, h) refl,
      (let k = m.0 in omega arith),
      (m.1, a.1),
      (let k = m.2 in let v = ap (n_ends d) s in omega arith),
    )
change_total d f c e h m (suc i) (x ∷ cs) g a =
    let (es, p, q, b, l) = change_total d f c e h m i cs g a.1 in
    (x ∷ es, rw p refl, omega arith, (a.0, b), omega arith)

in_child_total :
    (d : ℕ) (f : Cut d → Option (Cut d)) (c e : Cut d)
    → f c ≡ some e
    → IsMore d c e
    → (i : ℕ) (t : Cut (suc d)) → get_elem? (children t) i ≡ some c
    → IsFilled (suc d) t
    → (u : Cut (suc d)) × (in_child f i t ≡ some u) × IsMore (suc d) t u
unfolding sum_leaves Option.bind
in_child_total d f c e h m zero (x, cs) g a =
    let s : x ≡ c = some-injective x c g in
    let w = ap (sum_leaves d) s in
    (
      (e, cs),
      rw (s, h) refl,
      (
        (let k = m.0 in omega arith),
        (m.1, a.1),
        (let k = m.2 in let v = ap (n_ends d) s in omega arith),
      ),
    )
in_child_total d f c e h m (suc i) (x, cs) g a =
    let (es, p, q, b, l) = change_total d f c e h m i cs g a.1 in
    ((x, es), rw p refl, (omega arith, (a.0, b), omega arith))

-- A node with a new branch, and all under it reset.
abbrev branched : (d : ℕ) → Cut (suc d) → Cut (suc d)
branched d (c, cs) = (reset_sub_tree d c, map (reset_sub_tree d) cs ++ (init_cut_tree d ∷ []))

sum_leaves-branched :
    (d : ℕ) (t : Cut (suc d)) → sum_leaves (suc d) (branched d t) ≡ suc (n_ends (suc d) t)
unfolding sum_leaves reset_sub_tree init_cut_tree
sum_leaves-branched d (c, cs) =
    let a = sum-map-append (sum_leaves d) (map (reset_sub_tree d) cs) (init_cut_tree d ∷ []) in
    let r = sum_leaves-reset_sub_tree (suc d) (c, cs) in
    let i = sum_leaves-init_cut_tree d in omega arith

n_ends-branched : (d : ℕ) (t : Cut (suc d)) → n_ends (suc d) (branched d t) ≡ suc (n_ends (suc d) t)
unfolding reset_sub_tree init_cut_tree
n_ends-branched d (c, cs) =
    let a = sum-map-append (n_ends d) (map (reset_sub_tree d) cs) (init_cut_tree d ∷ []) in
    let r = n_ends-reset_sub_tree (suc d) (c, cs) in let i = n_ends-init_cut_tree d in omega arith

branched-IsFilled : (d : ℕ) (t : Cut (suc d)) → IsFilled (suc d) (branched d t)
unfolding reset_sub_tree
branched-IsFilled d (c, cs) =
    let r = reset_sub_tree-IsFilled (suc d) (c, cs) in
    (r.0, Each-append (IsFilled d) (map (reset_sub_tree d) cs) _ r.1 (init_cut_tree-IsFilled d, tt))

-- The loop, with an insertion that adds a leaf to a tree with less leaves than `target`.
refill_total :
    (d target ends : ℕ) (insert : Cut d → Option (Cut d))
    → ((t : Cut d)
        → IsFilled d t
        → ends ≤ n_ends d t
        → sum_leaves d t < target
        → (u : Cut d) × (insert t ≡ some u) × IsMore d t u)
    → (fuel : ℕ) (t : Cut d) → IsFilled d t
    → ends ≤ n_ends d t
    → sum_leaves d t ≤ target
    → target ≤ fuel + sum_leaves d t
    → (u : Cut d) × (refill d insert fuel target t ≡ some u)
      × (sum_leaves d u ≡ target)
      × IsFilled d u
      × (ends ≤ n_ends d u)
unfolding refill Option.bind
refill_total d target ends insert step zero t f g a b =
    let e : (sum_leaves d t == target) ≡ true = ground arith in (t, rw e refl, omega arith, f, g)
refill_total d target ends insert step (suc fuel) t f g a b =
    elim (Bool-cases (sum_leaves d t == target)) [
      | inl e ↦ (t, rw e refl, grind arith, f, g)
      | inr e ↦
          let l : sum_leaves d t < target = ground arith in
          let (u, p, m) = step t f g l in
          let k = m.0 in
          let q = m.2 in
          let (v, r, w, x, y) =
            refill_total d target ends insert step fuel u m.1 (omega arith) (omega arith)
              (omega arith) in
          (v, rw (e, p) r, w, x, y)
    ]

child_in_list :
    (d : ℕ) (cs : List (Cut d)) (i : ℕ) (c : Cut d)
    → get_elem? cs i ≡ some c
    → Each (IsFilled d) cs
    → IsFilled d c × (sum_leaves d c ≤ sum (map (sum_leaves d) cs))
child_in_list d [] i c g a = absurd (none-ne-some c g)
child_in_list d (x ∷ cs) zero c g a =
    let s = some-injective x c g in let w = ap (sum_leaves d) s in (rw (sym s) a.0, omega arith)
child_in_list d (x ∷ cs) (suc i) c g a =
    let r = child_in_list d cs i c g a.1 in (r.0, (let k = r.1 in omega arith))

child_bounds :
    (d : ℕ) (t : Cut (suc d)) (i : ℕ) (c : Cut d)
    → get_elem? (children t) i ≡ some c
    → IsFilled (suc d) t
    → IsFilled d c × (sum_leaves d c ≤ sum_leaves (suc d) t)
unfolding sum_leaves
child_bounds d (x, cs) i c g a = child_in_list d (x ∷ cs) i c g a

budget-bound : (leaves d : ℕ) → leaves < budget leaves d
budget-bound leaves zero = omega arith
budget-bound leaves (suc d) = omega (arith, budget-bound leaves d)

-- With enough fuel an insertion at a node of the tree adds a leaf.
module _ (less : ℕ × ℕ → ℕ × ℕ → Bool) where
  insert_child_at_total :
      (leaves fuel d : ℕ) (dims : Dims d) (path : List ℕ) (t : Cut d) (spare : ℕ)
      → IsPlace d t path
      → IsFilled d t
      → sum_leaves d t ≤ leaves
      → sum_leaves d t ≤ spare + n_ends d t
      → budget leaves d + spare ≤ fuel + leaves
      → (u : Cut d) × (insert_child_at less fuel d dims path t ≡ some u) × IsMore d t u
  unfolding insert_child_at sum_leaves
  insert_child_at_total leaves zero zero dims path n spare p f a b h = absurd (omega arith)
  insert_child_at_total leaves zero (suc d) dims path t spare p f a b h = absurd (omega arith)
  insert_child_at_total leaves (suc fuel) zero dims path n spare p f a b h =
      (n + 1, refl, (omega arith, omega arith, omega arith))
  insert_child_at_total leaves (suc fuel) (suc d) dims (i ∷ path) t spare p f a b h =
      let (c, g, q) = p in
      let k = child_bounds d t i c g f in
      let l = k.1 in
      let (u, e, m) =
        insert_child_at_total leaves fuel d dims.1 path c leaves q k.0 (omega arith) (omega arith)
          (omega arith) in
      in_child_total d (insert_child_at less fuel d dims.1 path) c u e m i t g f
  insert_child_at_total leaves (suc fuel) (suc d) dims [] t spare p f a b h =
      let s = sum_leaves-branched d t in
      let n = n_ends-branched d t in
      let l = n_ends-sum_leaves (suc d) t f in
      let y = budget-bound leaves d in
      let step =
        λ (u : Cut (suc d)) (g : IsFilled (suc d) u) (k : suc (n_ends (suc d) t) ≤ n_ends (suc d) u)
            (q : sum_leaves (suc d) u < suc (sum_leaves (suc d) t)).
          let m = n_ends-sum_leaves (suc d) u g in
          insert_child_at_total leaves fuel (suc d) dims (insertion less (suc d) dims u) u
            (spare - 1) (insertion-IsPlace less (suc d) dims u) g (omega arith) (omega arith)
            (omega arith) in
      let (u, e, r, x, y) =
        refill_total (suc d) (suc (sum_leaves (suc d) t)) (suc (n_ends (suc d) t))
          (λ u. insert_child_at less fuel (suc d) dims (insertion less (suc d) dims u) u) step fuel
          (branched d t) (branched-IsFilled d t) (omega arith) (omega arith) (omega arith) in
      (u, e, (r, x, omega arith))

  -- A refinement of a cut tree whose nodes at the last level have a leaf each ends, and gives such a
  -- tree with one leaf more, however the weights compare.
  pub refine_cut_tree_lem :
      (d : ℕ) (dims : Dims d) (t : Cut d)
      → IsFilled d t
      → (u : Cut d) × (refine_cut_tree less d dims t ≡ some u)
        × (sum_leaves d u ≡ suc (sum_leaves d t))
        × IsFilled d u
  unfolding refine_cut_tree
  refine_cut_tree_lem d dims t f =
      let (u, e, m) =
        insert_child_at_total (sum_leaves d t) (budget (sum_leaves d t) d) d dims
          (insertion less d dims t) t (sum_leaves d t) (insertion-IsPlace less d dims t) f
          (omega arith) (omega arith) (omega arith) in
      (u, e, m.0, m.1)
