-- ===== src/Partitioning/Spread.antt =====
-- Lists of bins by their weights: in order, with weights that are close to each other, and what
-- joining a list with another one in reverse does to them.
use maia.Base.{
  ℕ, zero, suc, ◌+◌, ◌≤◌, ◌==◌, ◌≡◌, refl, ap, ◌∙◌, List, [], ◌∷◌, ◌++◌, if◌then◌else◌, length,
  get_elem?, Bool-cases, inl, inr, arith,
}
use maia.Graph.Zip.{insert, sorted}
use maia.Partitioning.KarmarkarKarp.{Bins, subset_weight, lighter}

-- The bins one after the other, the first list backwards onto the second.
abbrev pub onto : Bins → Bins → Bins
onto [] acc = acc
onto (s ∷ ss) acc = onto ss (s ∷ acc)

-- The bins of two lists joined one by one.
abbrev pub join_each : Bins → Bins → Bins
join_each [] ts = []
join_each (s ∷ ss) [] = []
join_each (s ∷ ss) (t ∷ ts) = (s ++ t) ∷ join_each ss ts

pub length-onto : (ss acc : Bins) → length (onto ss acc) ≡ length ss + length acc
length-onto [] acc = omega arith
length-onto (s ∷ ss) acc = omega (arith, length-onto ss (s ∷ acc))

get_elem?-onto_past :
    (ss acc : Bins) (m k : ℕ) → k ≡ length ss + m → get_elem? (onto ss acc) k ≡ get_elem? acc m
get_elem?-onto_past [] acc m k h = let e : k ≡ m = omega arith in rw e refl
get_elem?-onto_past (s ∷ ss) acc m k h = get_elem?-onto_past ss (s ∷ acc) (suc m) k (omega arith)

-- The elements of the first list stand backwards.
pub get_elem?-onto :
    (ss acc : Bins) (k m : ℕ) → suc (k + m) ≡ length ss → get_elem? (onto ss acc) k ≡ get_elem? ss m
get_elem?-onto [] acc k m h = absurd (omega arith)
get_elem?-onto (s ∷ ss) acc k zero h = get_elem?-onto_past ss (s ∷ acc) 0 k (omega arith)
get_elem?-onto (s ∷ ss) acc k (suc m) h = get_elem?-onto ss (s ∷ acc) k m (omega arith)

-- How often the place is in the list, and in the bins.
abbrev pub count : ℕ → List ℕ → ℕ
count j [] = 0
count j (i ∷ s) = (if i == j then 1 else 0) + count j s

abbrev pub occurrences : ℕ → Bins → ℕ
occurrences j [] = 0
occurrences j (s ∷ ss) = count j s + occurrences j ss

count-append : (j : ℕ) (s t : List ℕ) → count j (s ++ t) ≡ count j s + count j t
count-append j [] t = omega arith
count-append j (i ∷ s) t = omega (arith, count-append j s t)

pub occurrences-onto :
    (j : ℕ) (ss acc : Bins) → occurrences j (onto ss acc) ≡ occurrences j ss + occurrences j acc
occurrences-onto j [] acc = omega arith
occurrences-onto j (s ∷ ss) acc = omega (arith, occurrences-onto j ss (s ∷ acc))

pub occurrences-join_each :
    (j : ℕ) (ss ts : Bins)
    → length ss ≡ length ts
    → occurrences j (join_each ss ts) ≡ occurrences j ss + occurrences j ts
occurrences-join_each j [] [] h = omega arith
occurrences-join_each j [] (t ∷ ts) h = omega arith
occurrences-join_each j (s ∷ ss) [] h = omega arith
occurrences-join_each j (s ∷ ss) (t ∷ ts) h =
    let e = occurrences-join_each j ss ts (omega arith) in let f = count-append j s t in omega arith

pub length-join_each : (ss ts : Bins) → length ss ≡ length ts → length (join_each ss ts) ≡ length ss
length-join_each [] ts h = refl
length-join_each (s ∷ ss) [] h = omega arith
length-join_each (s ∷ ss) (t ∷ ts) h = ap suc (length-join_each ss ts (omega arith))

module _ (numbers : List ℕ) where
  subset_weight-append :
      (s t : List ℕ)
      → subset_weight numbers (s ++ t) ≡ subset_weight numbers s + subset_weight numbers t
  unfolding subset_weight
  subset_weight-append [] t = omega arith
  subset_weight-append (i ∷ s) t = omega (arith, subset_weight-append s t)

  module _ (d : ℕ) where
    -- The weight of the bin is at most that of each of the others, and less by `d` at most.
    abbrev pub IsUnder : List ℕ → Bins → Type 0
    IsUnder s [] = Unit
    IsUnder s (t ∷ ts) =
        (subset_weight numbers s ≤ subset_weight numbers t)
        × (subset_weight numbers t ≤ subset_weight numbers s + d)
        × IsUnder s ts

    abbrev pub IsOver : List ℕ → Bins → Type 0
    IsOver s [] = Unit
    IsOver s (t ∷ ts) =
        (subset_weight numbers t ≤ subset_weight numbers s)
        × (subset_weight numbers s ≤ subset_weight numbers t + d)
        × IsOver s ts

    abbrev IsNear : List ℕ → Bins → Type 0
    IsNear s [] = Unit
    IsNear s (t ∷ ts) =
        (subset_weight numbers t ≤ subset_weight numbers s + d)
        × (subset_weight numbers s ≤ subset_weight numbers t + d)
        × IsNear s ts

    -- The weights grow, by `d` at most from the first to the last.
    abbrev pub IsRising : Bins → Type 0
    IsRising [] = Unit
    IsRising (s ∷ ss) = IsUnder s ss × IsRising ss

    abbrev IsFalling : Bins → Type 0
    IsFalling [] = Unit
    IsFalling (s ∷ ss) = IsOver s ss × IsFalling ss

    abbrev AreNear : Bins → Type 0
    AreNear [] = Unit
    AreNear (s ∷ ss) = IsNear s ss × AreNear ss

    abbrev AreOver : Bins → Bins → Type 0
    AreOver [] acc = Unit
    AreOver (s ∷ ss) acc = IsOver s acc × AreOver ss acc

    IsUnder-AreOver :
        (s : List ℕ) (ss acc : Bins) → IsUnder s ss → AreOver ss acc → AreOver ss (s ∷ acc)
    IsUnder-AreOver s [] acc u o = tt
    IsUnder-AreOver s (t ∷ ss) acc u o = ((u.0, u.1, o.0), IsUnder-AreOver s ss acc u.2 o.1)

    onto-IsFalling :
        (ss acc : Bins) → IsRising ss → IsFalling acc → AreOver ss acc → IsFalling (onto ss acc)
    onto-IsFalling [] acc r f o = f
    onto-IsFalling (s ∷ ss) acc r f o =
        onto-IsFalling ss (s ∷ acc) r.1 (o.0, f) (IsUnder-AreOver s ss acc r.0 o.1)

    AreOver-nil : (ss : Bins) → AreOver ss []
    AreOver-nil [] = tt
    AreOver-nil (s ∷ ss) = (tt, AreOver-nil ss)

    join_each-IsNear :
        (s t : List ℕ) (ss ts : Bins)
        → IsUnder s ss
        → IsOver t ts
        → IsNear (s ++ t) (join_each ss ts)
    join_each-IsNear s t [] ts u o = tt
    join_each-IsNear s t (x ∷ ss) [] u o = tt
    join_each-IsNear s t (x ∷ ss) (y ∷ ts) u o =
        let e = subset_weight-append s t in
        let f = subset_weight-append x y in
        (omega arith, omega arith, join_each-IsNear s t ss ts u.2 o.2)

    join_each-AreNear : (ss ts : Bins) → IsRising ss → IsFalling ts → AreNear (join_each ss ts)
    join_each-AreNear [] ts r f = tt
    join_each-AreNear (s ∷ ss) [] r f = tt
    join_each-AreNear (s ∷ ss) (t ∷ ts) r f =
        (join_each-IsNear s t ss ts r.0 f.0, join_each-AreNear ss ts r.1 f.1)

    insert-IsNear :
        (s t : List ℕ) (ss : Bins) → IsNear s (t ∷ ss) → IsNear s (insert (lighter numbers) t ss)
    unfolding insert
    insert-IsNear s t [] n = n
    insert-IsNear s t (x ∷ ss) n = ground (arith, insert-IsNear s t ss (n.0, n.1, n.2.2))

    sorted-IsNear : (s : List ℕ) (ss : Bins) → IsNear s ss → IsNear s (sorted (lighter numbers) ss)
    unfolding sorted
    sorted-IsNear s [] n = tt
    sorted-IsNear s (t ∷ ss) n = insert-IsNear s t _ (n.0, n.1, sorted-IsNear s ss n.2)

    insert-IsUnder :
        (s t : List ℕ) (ss : Bins) → IsUnder s (t ∷ ss) → IsUnder s (insert (lighter numbers) t ss)
    unfolding insert
    insert-IsUnder s t [] n = n
    insert-IsUnder s t (x ∷ ss) n = ground (arith, insert-IsUnder s t ss (n.0, n.1, n.2.2))

    IsUnder-through :
        (s t : List ℕ) (ss : Bins)
        → subset_weight numbers s ≤ subset_weight numbers t
        → IsUnder t ss
        → IsNear s ss
        → IsUnder s ss
    IsUnder-through s t [] h u n = tt
    IsUnder-through s t (x ∷ ss) h u n =
        (omega arith, omega arith, IsUnder-through s t ss h u.2 n.2)

    insert-IsRising :
        (s : List ℕ) (ss : Bins)
        → IsNear s ss
        → IsRising ss
        → IsRising (insert (lighter numbers) s ss)
    unfolding insert
    insert-IsRising s [] n r = (tt, tt)
    insert-IsRising s (t ∷ ss) n r = elim (Bool-cases (lighter numbers t s)) [
      | inl h ↦ rw h (insert-IsUnder t s ss (ground arith, n.1, r.0), insert-IsRising s ss n.2 r.1)
      | inr h ↦
          let l : subset_weight numbers s ≤ subset_weight numbers t = ground arith in
          rw h ((l, n.0, IsUnder-through s t ss l r.0 n.2), r)
    ]

    pub sorted-IsRising : (ss : Bins) → AreNear ss → IsRising (sorted (lighter numbers) ss)
    unfolding sorted
    sorted-IsRising [] n = tt
    sorted-IsRising (s ∷ ss) n =
        insert-IsRising s (sorted (lighter numbers) ss) (sorted-IsNear s ss n.0)
          (sorted-IsRising ss n.1)

    pub merged-IsRising :
        (ss ts : Bins)
        → IsRising ss
        → IsRising ts
        → IsRising (sorted (lighter numbers) (join_each ss (onto ts [])))
    merged-IsRising ss ts r q =
        sorted-IsRising _
          (join_each-AreNear ss (onto ts []) r (onto-IsFalling ts [] q tt (AreOver-nil ts)))

  occurrences-insert :
      (j : ℕ) (s : List ℕ) (ss : Bins)
      → occurrences j (insert (lighter numbers) s ss) ≡ count j s + occurrences j ss
  unfolding insert
  occurrences-insert j s [] = refl
  occurrences-insert j s (t ∷ ss) = ground (arith, occurrences-insert j s ss)

  pub occurrences-sorted :
      (j : ℕ) (ss : Bins) → occurrences j (sorted (lighter numbers) ss) ≡ occurrences j ss
  unfolding sorted
  occurrences-sorted j [] = refl
  occurrences-sorted j (s ∷ ss) =
      let e = occurrences-insert j s (sorted (lighter numbers) ss) in
      omega (arith, occurrences-sorted j ss)

  length-insert :
      (s : List ℕ) (ss : Bins) → length (insert (lighter numbers) s ss) ≡ suc (length ss)
  unfolding insert
  length-insert s [] = refl
  length-insert s (t ∷ ss) = ground (arith, length-insert s ss)

  pub length-sorted : (ss : Bins) → length (sorted (lighter numbers) ss) ≡ length ss
  unfolding sorted
  length-sorted [] = refl
  length-sorted (s ∷ ss) = length-insert s (sorted (lighter numbers) ss) ∙ ap suc (length-sorted ss)
