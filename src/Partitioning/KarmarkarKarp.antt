-- ===== src/Partitioning/KarmarkarKarp.antt =====
-- `karmarkar_karp` of `maia/factory/partitioning/load_balancing/multi_zone_balancing.py`. The numbers
-- are positive integers. The keys of the heap are kept without their minus sign, so that the first
-- entry is one with the largest key; `heapq` pops the least tuple.
use maia.Base.{
  ℕ, zero, suc, ◌+◌, ◌-◌, ◌==◌, ltb, List, [], ◌∷◌, ◌++◌, Bool, true, false, Option, none, some,
  if◌then◌else◌, length, get_elem?, get_or, replicate,
}
use maia.Base.Result.{Result, ok, raised, index_error, ◌>>=◌}
use maia.Graph.Zip.{sorted}

-- Places in the list of numbers, and one list of them for each bin.
abbrev pub Bins : Type 0
Bins = List (List ℕ)

abbrev pub Entry : Type 0
Entry = ℕ × Bins

-- `<` on lists, from a test of equality and one of order on what they hold.
unfoldable pub list_lt : {A : Type 0} → (A → A → Bool) → (A → A → Bool) → List A → List A → Bool
list_lt eq lt s [] = false
list_lt eq lt [] (y ∷ ys) = true
list_lt eq lt (x ∷ xs) (y ∷ ys) = if eq x y then list_lt eq lt xs ys else lt x y

unfoldable pub list_eq : {A : Type 0} → (A → A → Bool) → List A → List A → Bool
list_eq eq [] [] = true
list_eq eq [] (y ∷ ys) = false
list_eq eq (x ∷ xs) [] = false
list_eq eq (x ∷ xs) (y ∷ ys) = if eq x y then list_eq eq xs ys else false

-- The order of the tuples of the heap.
unfoldable pub entry_lt : Entry → Entry → Bool
unfolding list_lt list_eq
entry_lt (k, s) (l, t) =
    if k == l then list_lt (list_eq (◌==◌)) (list_lt (◌==◌) ltb) s t else ltb l k

-- `heapq.heappop`: the least entry of those in the list, and the others.
unfoldable pub heappop : Entry → List Entry → Entry × List Entry
unfolding entry_lt
heappop e [] = (e, [])
heappop e (f ∷ heap) =
    let (least, others) = heappop f heap in
    if entry_lt least e then (least, e ∷ others) else (e, f ∷ heap)

module _ (numbers : List ℕ) where
  -- `subset_weight`
  unfoldable pub subset_weight : List ℕ → ℕ
  subset_weight [] = 0
  subset_weight (i ∷ s) = get_or numbers i 0 + subset_weight s

  abbrev pub lighter : List ℕ → List ℕ → Bool
  lighter s t = ltb (subset_weight s) (subset_weight t)

  abbrev item : {A : Type 0} → Option A → Result A
  item none = raised index_error
  item (some a) = ok a

  -- `[first[i] + second[n_bin-i-1] for i in range(n_bin)]`, from `i` on.
  unfoldable pub combine : ℕ → Bins → Bins → ℕ → ℕ → Result Bins
  combine n_bin first second i zero = ok []
  combine n_bin first second i (suc count) = do
    a ← item (get_elem? first i)
    b ← item (get_elem? second (n_bin - i - 1))
    rest ← combine n_bin first second (suc i) count
    ok ((a ++ b) ∷ rest)

  abbrev last_of : List ℕ → Bins → List ℕ
  last_of s [] = s
  last_of s (t ∷ ts) = last_of t ts

  -- `next_key`, from `combined_subset[-1]` and `combined_subset[0]`.
  unfoldable pub next_key : Bins → Result ℕ
  unfolding subset_weight
  next_key [] = raised index_error
  next_key (s ∷ ss) = ok (subset_weight (last_of s ss) - subset_weight s)

  -- `heapq.heappush(all_subsets, (-number, ini_subset))` for each number, counted from `i`.
  unfoldable pub initial : ℕ → ℕ → List ℕ → List Entry
  initial n_bin i [] = []
  initial n_bin i (n ∷ ns) =
      (n, replicate (n_bin - 1) [] ++ ((i ∷ []) ∷ [])) ∷ initial n_bin (suc i) ns

  abbrev pub pop_again : List Entry → Result (Entry × List Entry)
  pop_again [] = raised index_error
  pop_again (e ∷ heap) = ok (heappop e heap)

  -- The loop, on fuel, and `all_subsets[0][1]`. Out of fuel there is no answer.
  unfoldable pub merge_loop : ℕ → ℕ → List Entry → Result (Option Bins)
  unfolding heappop combine next_key sorted subset_weight
  merge_loop fuel n_bin [] = raised index_error
  merge_loop fuel n_bin ((key, s) ∷ []) = ok (some s)
  merge_loop zero n_bin (e ∷ f ∷ heap) = ok none
  merge_loop (suc fuel) n_bin (e ∷ f ∷ heap) =
      let (first, others) = heappop e (f ∷ heap) in
      pop_again others >>= λ popped. combine n_bin first.1 popped.0.1 0 n_bin >>= λ combined.
      next_key (sorted lighter combined) >>= λ key.
      merge_loop fuel n_bin ((key, sorted lighter combined) ∷ popped.1)

unfoldable pub karmarkar_karp : List ℕ → ℕ → Result (Option Bins)
unfolding merge_loop initial
karmarkar_karp numbers n_bin =
    merge_loop numbers (length numbers) n_bin (initial numbers n_bin 0 numbers)
