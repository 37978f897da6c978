-- ===== src/Partitioning/KarmarkarKarpLaws.antt =====
-- `karmarkar_karp` ends, puts every place into one bin, and balances the bins.
use maia.Base.{
  ℕ, zero, suc, ◌+◌, ◌-◌, ◌≤◌, ◌<◌, max, ◌≡◌, refl, sym, ap, ◌∙◌, List, [], ◌∷◌, ◌++◌, some, length,
  get_elem?, get_or, drop, range, replicate, length-append, length-replicate, Bool-cases, inl, inr,
  arith,
}
use maia.Base.Result.{ok}
use maia.Graph.Zip.{sorted}
use maia.Partitioning.KarmarkarKarp.{
  Bins, Entry, entry_lt, heappop, subset_weight, lighter, combine, next_key, initial, pop_again,
  merge_loop, karmarkar_karp,
}
use maia.Partitioning.Spread.{
  onto, join_each, get_elem?-onto, count, occurrences, occurrences-onto, occurrences-join_each,
  length-join_each, length-onto, IsRising, IsUnder, merged-IsRising, occurrences-sorted,
  length-sorted,
}

-- How often the place is in the bins of the entries.
abbrev total : ℕ → List Entry → ℕ
total j [] = 0
total j (e ∷ heap) = occurrences j e.1 + total j heap

length-heappop : (e : Entry) (heap : List Entry) → length (heappop e heap).1 ≡ length heap
unfolding heappop
length-heappop e [] = refl
length-heappop e (f ∷ heap) = ground (arith, length-heappop f heap)

total-heappop :
    (j : ℕ) (e : Entry) (heap : List Entry)
    → occurrences j (heappop e heap).0.1 + total j (heappop e heap).1 ≡ total j (e ∷ heap)
unfolding heappop
total-heappop j e [] = refl
total-heappop j e (f ∷ heap) = ground (arith, total-heappop j f heap)

drop-get_elem? :
    (ss : Bins) (i : ℕ)
    → i < length ss
    → (s : List ℕ) × (get_elem? ss i ≡ some s) × (drop i ss ≡ s ∷ drop (suc i) ss)
drop-get_elem? [] i h = absurd (omega arith)
drop-get_elem? (s ∷ ss) zero h = (s, refl, refl)
drop-get_elem? (s ∷ ss) (suc i) h = drop-get_elem? ss i (omega arith)

drop_all : (ss : Bins) (i : ℕ) → length ss ≤ i → drop i ss ≡ []
drop_all [] zero h = refl
drop_all [] (suc i) h = refl
drop_all (s ∷ ss) zero h = absurd (omega arith)
drop_all (s ∷ ss) (suc i) h = drop_all ss i (omega arith)

next_key_total :
    (numbers : List ℕ) (m : ℕ) (ss : Bins)
    → length ss ≡ suc m
    → (k : ℕ) × (next_key numbers ss ≡ ok k)
unfolding next_key
next_key_total numbers m [] h = absurd (omega arith)
next_key_total numbers m (s ∷ ss) h = (_, refl)

module _ (numbers : List ℕ) where
  combine-join_each :
      (n : ℕ) (first second : Bins) (i count : ℕ)
      → length first ≡ n
      → length second ≡ n
      → i + count ≡ n
      → combine numbers n first second i count
        ≡ ok (join_each (drop i first) (drop i (onto second [])))
  unfolding combine
  combine-join_each n first second i zero h k e = rw (drop_all first i (omega arith)) refl
  combine-join_each n first second i (suc c) h k e =
      let (a, p, q) = drop-get_elem? first i (omega arith) in
      let l = length-onto second [] in
      let (b, r, t) = drop-get_elem? (onto second []) i (omega arith) in
      let m : n - i - 1 ≡ c = omega arith in
      let g = sym (get_elem?-onto second [] i c (omega arith)) ∙ r in
      rw (p, m, g, combine-join_each n first second (suc i) c h k (omega arith), q, t) refl

  -- Every entry has a list for each bin, the weights of which are close.
  module _ (n d : ℕ) where
    abbrev IsEntry : Entry → Type 0
    IsEntry e = (length e.1 ≡ n) × IsRising numbers d e.1

    abbrev AreEntries : List Entry → Type 0
    AreEntries [] = Unit
    AreEntries (e ∷ heap) = IsEntry e × AreEntries heap

    heappop-AreEntries :
        (e : Entry) (heap : List Entry)
        → AreEntries (e ∷ heap)
        → IsEntry (heappop e heap).0 × AreEntries (heappop e heap).1
    unfolding heappop
    heappop-AreEntries e [] a = a
    heappop-AreEntries e (f ∷ heap) a =
        let ih = heappop-AreEntries f heap a.1 in
        elim (Bool-cases (entry_lt (heappop f heap).0 e)) [
          | inl h ↦ rw h (ih.0, (a.0, ih.1))
          | inr h ↦ rw h a
        ]

    -- What the loop is to find: bins that are balanced and hold what the heap holds.
    abbrev IsResult : List Entry → Bins → Type 0
    IsResult heap bins =
        (length bins ≡ n) × IsRising numbers d bins × ((j : ℕ) → occurrences j bins ≡ total j heap)

    -- The entry that two entries are merged to.
    abbrev merged : Entry → Entry → Bins
    merged e f = sorted (lighter numbers) (join_each e.1 (onto f.1 []))

    merged-IsEntry : (e f : Entry) (k : ℕ) → IsEntry e → IsEntry f → IsEntry (k, merged e f)
    merged-IsEntry e f k a b =
        let l = length-onto f.1 [] in
        let h : length e.1 ≡ length (onto f.1 []) = omega arith in
        (
          length-sorted numbers _ ∙ length-join_each e.1 (onto f.1 []) h ∙ a.0,
          merged-IsRising numbers d e.1 f.1 a.1 b.1,
        )

    occurrences-merged :
        (j : ℕ) (e f : Entry)
        → IsEntry e
        → IsEntry f
        → occurrences j (merged e f) ≡ occurrences j e.1 + occurrences j f.1
    occurrences-merged j e f a b =
        let l = length-onto f.1 [] in
        let h : length e.1 ≡ length (onto f.1 []) = omega arith in
        let o = occurrences-onto j f.1 [] in
        let p = occurrences-join_each j e.1 (onto f.1 []) h in
        occurrences-sorted numbers j _ ∙ omega arith

    -- Popping from a heap that is not empty.
    pop_again_total :
        (heap : List Entry) (k : ℕ)
        → length heap ≡ suc k
        → AreEntries heap
        → (e : Entry) × (rest : List Entry) × (pop_again numbers heap ≡ ok (e, rest))
          × (length rest ≡ k)
          × IsEntry e
          × AreEntries rest
          × ((j : ℕ) → occurrences j e.1 + total j rest ≡ total j heap)
    pop_again_total [] k h a = absurd (omega arith)
    pop_again_total (e ∷ heap) k h a =
        let b = heappop-AreEntries e heap a in
        let l = length-heappop e heap in
        (
          (heappop e heap).0,
          (heappop e heap).1,
          refl,
          omega arith,
          b.0,
          b.1,
          λ j. total-heappop j e heap,
        )

  module _ (m d : ℕ) where
    merge_loop_total :
        (fuel : ℕ) (e : Entry) (heap : List Entry)
        → length heap ≤ fuel
        → AreEntries (suc m) d (e ∷ heap)
        → (bins : Bins) × (merge_loop numbers fuel (suc m) (e ∷ heap) ≡ ok (some bins))
          × IsResult (suc m) d (e ∷ heap) bins
    unfolding merge_loop
    merge_loop_total fuel e [] h a = (e.1, refl, (a.0.0, a.0.1, λ j. omega arith))
    merge_loop_total zero e (f ∷ heap) h a = absurd (omega arith)
    merge_loop_total (suc fuel) e (f ∷ heap) h a =
        let first = (heappop e (f ∷ heap)).0 in
        let others = (heappop e (f ∷ heap)).1 in
        let b = heappop-AreEntries (suc m) d e (f ∷ heap) a in
        let l = length-heappop e (f ∷ heap) in
        let t = λ (j : ℕ). total-heappop j e (f ∷ heap) in
        let (second, rest, q, k, c, z, u) = pop_again_total (suc m) d others (length heap) l b.1 in
        let (key, v) =
          next_key_total numbers m (merged (suc m) d first second)
            (merged-IsEntry (suc m) d first second 0 b.0 c).0 in
        let (bins, x, y) =
          merge_loop_total fuel (key, merged (suc m) d first second) rest (omega arith)
            (merged-IsEntry (suc m) d first second key b.0 c, z) in
        (
          bins,
          rw (q, combine-join_each (suc m) first.1 second.1 0 (suc m) b.0.0 c.0 (omega arith), v) x,
          (
            y.0,
            y.1,
            λ j.
                let o = occurrences-merged (suc m) d j first second b.0 c in
                let p = y.2 j in let r = t j in let w = u j in omega arith,
          ),
        )

-- The largest of the numbers.
abbrev pub largest : List ℕ → ℕ
largest [] = 0
largest (n ∷ ns) = max n (largest ns)

get_or-largest : (numbers : List ℕ) (i : ℕ) → get_or numbers i 0 ≤ largest numbers
get_or-largest [] i = omega arith
get_or-largest (n ∷ ns) zero = omega arith
get_or-largest (n ∷ ns) (suc i) = omega (arith, get_or-largest ns i)

occurrences-empty : (j m : ℕ) (ss : Bins) → occurrences j (replicate m [] ++ ss) ≡ occurrences j ss
occurrences-empty j zero ss = refl
occurrences-empty j (suc m) ss = omega (arith, occurrences-empty j m ss)

module _ (numbers : List ℕ) where
  one_bin-IsUnder :
      (m i : ℕ) → IsUnder numbers (largest numbers) [] (replicate m [] ++ ((i ∷ []) ∷ []))
  unfolding subset_weight
  one_bin-IsUnder zero i = (omega arith, (let l = get_or-largest numbers i in omega arith), tt)
  one_bin-IsUnder (suc m) i = (omega arith, omega arith, one_bin-IsUnder m i)

  one_bin-IsRising :
      (m i : ℕ) → IsRising numbers (largest numbers) (replicate m [] ++ ((i ∷ []) ∷ []))
  one_bin-IsRising zero i = (tt, tt)
  one_bin-IsRising (suc m) i = (one_bin-IsUnder m i, one_bin-IsRising m i)

  initial-AreEntries :
      (m i : ℕ) (ns : List ℕ)
      → AreEntries numbers (suc m) (largest numbers) (initial numbers (suc m) i ns)
  unfolding initial
  initial-AreEntries m i [] = tt
  initial-AreEntries m i (n ∷ ns) = (
    (
      length-append (replicate (suc m - 1) []) ((i ∷ []) ∷ [])
          ∙ (let l = length-replicate {A = List ℕ} (suc m - 1) [] in omega arith),
      one_bin-IsRising (suc m - 1) i,
    ),
    initial-AreEntries m (suc i) ns,
  )

  total-initial :
      (j m i : ℕ) (ns : List ℕ)
      → total j (initial numbers (suc m) i ns) ≡ count j (range i (length ns))
  unfolding initial
  total-initial j m i [] = refl
  total-initial j m i (n ∷ ns) =
      let e = occurrences-empty j (suc m - 1) ((i ∷ []) ∷ []) in
      let f = total-initial j m (suc i) ns in omega arith

  length-initial : (m i : ℕ) (ns : List ℕ) → length (initial numbers (suc m) i ns) ≡ length ns
  unfolding initial
  length-initial m i [] = refl
  length-initial m i (n ∷ ns) = ap suc (length-initial m (suc i) ns)

-- For one number at least and one bin at least, `karmarkar_karp` ends and raises nothing. It gives as
-- many bins as asked for, each place of the list of numbers is in exactly one of them, and the bins
-- are in the order of their weights, of which any two differ by the largest number at most.
pub karmarkar_karp_lem :
    (number : ℕ) (more : List ℕ) (m : ℕ)
    → let numbers = number ∷ more in
      (bins : Bins) × (karmarkar_karp numbers (suc m) ≡ ok (some bins))
      × (length bins ≡ suc m)
      × IsRising numbers (largest numbers) bins
      × ((j : ℕ) → occurrences j bins ≡ count j (range 0 (length numbers)))
unfolding karmarkar_karp initial
karmarkar_karp_lem number more m =
    let numbers = number ∷ more in
    let l = length-initial numbers m 1 more in
    let (bins, e, r) =
      merge_loop_total numbers m (largest numbers) (length numbers) _
        (initial numbers (suc m) 1 more) (omega arith) (initial-AreEntries numbers m 0 numbers) in
    (bins, e, r.0, r.1, λ j. r.2 j ∙ total-initial numbers j m 0 numbers)
