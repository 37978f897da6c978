-- ===== src/Partitioning/SplitLaws.antt =====
-- The parts of a structured block are as many as asked for, and fill the block.
use maia.Base.{
  ℕ, zero, suc, ◌+◌, ◌-◌, ◌*◌, ◌≤◌, ◌<◌, ◌≡◌, refl, sym, ap, ◌∙◌, List, [], ◌∷◌, length, get_or,
  map, range, replicate, take, arith, length-map, length-replicate,
}
use native.Mathlib.Nat.{add-mul, mul-add}
use maia.Partitioning.CutTree.{Cut, Dims, sum_leaves}
use maia.Partitioning.CutTreeLaws.{Each, IsFilled, sum-map-append, n_ends, n_ends-sum_leaves}
use maia.Partitioning.SplitBlock.{
  Part, Floats, splits, with_interval, over_children, last_parts, bct_to_partitions_bounds,
}
use maia.Utils.Lists.{sum}

abbrev pub volume : Part → ℕ
volume [] = 1
volume ((start, end) ∷ part) = (end - start) * volume part

abbrev pub volumes : List Part → ℕ
volumes parts = sum (map volume parts)

-- The number of cells of a block.
abbrev pub n_cells : (d : ℕ) → Dims d → ℕ
n_cells zero dim = dim
n_cells (suc d) (dim, dims) = dim * n_cells d dims

-- The shares of numbers in their sum.
abbrev pub shares : (floats : Floats) → List ℕ → List floats.Float
shares floats ns = map (λ n. floats.quotient n (sum ns)) ns

-- The sums of the first shares, multiplied by the number of cells and rounded, rise from 0 to it.
abbrev pub Covers : Floats → ℕ → List ℕ → Type 0
Covers floats dim ns =
    (floats.nearest (floats.total []) dim ≡ 0)
    × ((i : ℕ)
        → floats.nearest (floats.total (take i (shares floats ns))) dim
          ≤ floats.nearest (floats.total (take (suc i) (shares floats ns))) dim)
    × (floats.nearest (floats.total (shares floats ns)) dim ≡ dim)

-- What is asked of the floats, for numbers up to a limit.
abbrev pub IsRounding : ℕ → Floats → Type 0
IsRounding limit floats =
    (dim : ℕ) (ns : List ℕ) → dim ≤ limit → 1 ≤ sum ns → sum ns ≤ limit → Covers floats dim ns

abbrev pub IsWithin : ℕ → (d : ℕ) → Dims d → Type 0
IsWithin limit zero dim = dim ≤ limit
IsWithin limit (suc d) (dim, dims) = (dim ≤ limit) × IsWithin limit d dims

get_or-map-range :
    (f : ℕ → ℕ) (start count i : ℕ)
    → i < count
    → get_or (map f (range start count)) i 0 ≡ f (start + i)
get_or-map-range f start zero i h = absurd (omega arith)
get_or-map-range f start (suc count) zero h = ap f (omega arith)
get_or-map-range f start (suc count) (suc i) h =
    get_or-map-range f (suc start) count i (omega arith) ∙ ap f (omega arith)

take_all : {A : Type 0} → (xs : List A) → take (length xs) xs ≡ xs
take_all [] = refl
take_all (x ∷ xs) = ap (λ ys. x ∷ ys) (take_all xs)

sum-ones : (n : ℕ) → sum (replicate n 1) ≡ n
sum-ones zero = refl
sum-ones (suc n) = omega (arith, sum-ones n)

map-replicate : {A : Type 0} (f : ℕ → A) (n : ℕ) → map f (replicate n 1) ≡ replicate n (f 1)
map-replicate f zero = refl
map-replicate f (suc n) = ap (λ xs. f 1 ∷ xs) (map-replicate f n)

map_twice :
    {A B : Type 0} (f : A → ℕ) (g : ℕ → B) (xs : List A) → map g (map f xs) ≡ map (λ x. g (f x)) xs
map_twice f g [] = refl
map_twice f g (x ∷ xs) = ap (λ ys. g (f x) ∷ ys) (map_twice f g xs)

n_ends_positive : (d : ℕ) (t : Cut d) → 1 ≤ n_ends d t
n_ends_positive zero n = omega arith
n_ends_positive (suc d) (c, cs) = omega (arith, n_ends_positive d c)

pub sum_leaves_positive : (d : ℕ) (t : Cut d) → IsFilled d t → 1 ≤ sum_leaves d t
sum_leaves_positive d t f = omega (arith, n_ends_positive d t, n_ends-sum_leaves d t f)

-- A width times a volume.
width_lem : (a b v : ℕ) → a ≤ b → (b - a) * v + a * v ≡ b * v
width_lem a b v h =
    let k : (b - a) + a ≡ b = omega arith in sym (add-mul (b - a) a v) ∙ ap (λ c. c * v) k

module _ (floats : Floats) where
  volumes-with_interval :
      (cuts : List ℕ) (i : ℕ) (subs : List Part)
      → volumes (with_interval floats cuts i subs)
        ≡ (get_or cuts (suc i) 0 - get_or cuts i 0) * volumes subs
  volumes-with_interval cuts i [] = omega arith
  volumes-with_interval cuts i (sub ∷ subs) =
      let r = volumes-with_interval cuts i subs in
      let k = mul-add (get_or cuts (suc i) 0 - get_or cuts i 0) (volume sub) (volumes subs) in
      omega arith

  volumes-over_children :
      {A : Type 0} (parts_of : A → List Part) (P : A → Type 0) (v : ℕ)
      → ((c : A) → P c → volumes (parts_of c) ≡ v)
      → (cuts : List ℕ) → (i : ℕ) (cs : List A) → Each P cs
      → ((j : ℕ) → j < i + length cs → get_or cuts j 0 ≤ get_or cuts (suc j) 0)
      → volumes (over_children floats parts_of cuts i cs) + get_or cuts i 0 * v
        ≡ get_or cuts (i + length cs) 0 * v
  unfolding over_children
  volumes-over_children parts_of P v h cuts i [] e m =
      let p : i ≡ i + 0 = omega arith in let q = ap (λ j. get_or cuts j 0 * v) p in omega arith
  volumes-over_children parts_of P v h cuts i (c ∷ cs) e m =
      let w = volumes-with_interval cuts i (parts_of c) in
      let k = h c e.0 in
      let a =
        sum-map-append volume (with_interval floats cuts i (parts_of c))
          (over_children floats parts_of cuts (suc i) cs) in
      let r = volumes-over_children parts_of P v h cuts (suc i) cs e.1 (λ j l. m j (omega arith)) in
      let p : suc i + length cs ≡ i + length (c ∷ cs) = omega arith in
      let t = w ∙ ap (λ x. (get_or cuts (suc i) 0 - get_or cuts i 0) * x) k in
      let l = width_lem (get_or cuts i 0) (get_or cuts (suc i) 0) v (m i (omega arith)) in
      let q = ap (λ j. get_or cuts j 0 * v) p in omega arith

  volumes-singles :
      (cuts : List ℕ) (i count : ℕ)
      → ((j : ℕ) → j < i + count → get_or cuts j 0 ≤ get_or cuts (suc j) 0)
      → volumes (map (λ j. (get_or cuts j 0, get_or cuts (suc j) 0) ∷ []) (range i count))
          + get_or cuts i 0
        ≡ get_or cuts (i + count) 0
  volumes-singles cuts i zero m =
      let p : i ≡ i + 0 = omega arith in let q = ap (λ j. get_or cuts j 0) p in omega arith
  volumes-singles cuts i (suc count) m =
      let r = volumes-singles cuts (suc i) count (λ j l. m j (omega arith)) in
      let p : suc i + count ≡ i + suc count = omega arith in
      let q = ap (λ j. get_or cuts j 0) p in let l = m i (omega arith) in omega arith

  get_or-splits :
      (count dim : ℕ) (ws : List floats.Float) (j : ℕ)
      → j < suc count
      → get_or (splits floats count dim ws) j 0 ≡ floats.nearest (floats.total (take j ws)) dim
  unfolding splits
  get_or-splits count dim ws j h =
      get_or-map-range (λ i. floats.nearest (floats.total (take i ws)) dim) 0 (suc count) j h
      ∙ ap (λ i. floats.nearest (floats.total (take i ws)) dim) (omega arith)

  module _ (count dim : ℕ) (ns : List ℕ) (ws : List floats.Float) (e : shares floats ns ≡ ws)
      (l : length ns ≡ count) (covers : Covers floats dim ns) where
    splits_rise :
        (j : ℕ)
        → j < 0 + count
        → get_or (splits floats count dim ws) j 0 ≤ get_or (splits floats count dim ws) (suc j) 0
    splits_rise j h =
        let a = get_or-splits count dim ws j (omega arith) in
        let b = get_or-splits count dim ws (suc j) (omega arith) in
        let f = ap (λ us. floats.nearest (floats.total (take j us)) dim) e in
        let g = ap (λ us. floats.nearest (floats.total (take (suc j) us)) dim) e in
        let r = covers.1 j in omega arith

    splits_begin : get_or (splits floats count dim ws) 0 0 ≡ 0
    splits_begin = get_or-splits count dim ws 0 (omega arith) ∙ covers.0

    splits_end : get_or (splits floats count dim ws) (0 + count) 0 ≡ dim
    splits_end =
        let m = length-map (λ k. floats.quotient k (sum ns)) ns in
        let k : length ws ≡ length ns = sym (ap length e) ∙ m in
        let z : 0 + count ≡ length ws = omega arith in
        get_or-splits count dim ws (0 + count) (omega arith)
        ∙ ap (λ us. floats.nearest (floats.total us) dim)
            (ap (λ j. take j ws) z ∙ take_all ws ∙ sym e)
        ∙ covers.2

  module _ (limit : ℕ) (rounding : IsRounding limit floats) where
    volumes-last_parts :
        (dim n : ℕ) → dim ≤ limit → 1 ≤ n → n ≤ limit → volumes (last_parts floats dim n) ≡ dim
    unfolding last_parts
    volumes-last_parts dim n hd h hn =
        let ws = replicate n (floats.quotient 1 n) in
        let s = sum-ones n in
        let w =
          ap (λ m. map (λ k. floats.quotient k m) (replicate n 1)) s
          ∙ map-replicate (λ k. floats.quotient k n) n in
        let c = rounding dim (replicate n 1) hd (omega arith) (omega arith) in
        let l = length-replicate {A = ℕ} n 1 in
        let a =
          volumes-singles (splits floats n dim ws) 0 n
            (splits_rise n dim (replicate n 1) ws w l c) in
        let b = splits_begin n dim (replicate n 1) ws w l c in
        let e = splits_end n dim (replicate n 1) ws w l c in omega arith

    volumes_level :
        {A : Type 0} (parts_of : A → List Part) (P : A → Type 0) (leaves : A → ℕ) (dim v : ℕ)
        → ((c : A) → P c → volumes (parts_of c) ≡ v)
        → (cs : List A) → Each P cs
        → dim ≤ limit
        → 1 ≤ sum (map leaves cs)
        → sum (map leaves cs) ≤ limit
        → volumes (
            over_children floats parts_of
              (splits floats
                (length cs)
                dim
                (map (λ c. floats.quotient (leaves c) (sum (map leaves cs))) cs))
              0
              cs)
          ≡ dim * v
    volumes_level parts_of P leaves dim v h cs f hd p q =
        let n = sum (map leaves cs) in
        let ws = map (λ c. floats.quotient (leaves c) n) cs in
        let w = map_twice leaves (λ k. floats.quotient k n) cs in
        let l = length-map leaves cs in
        let c = rounding dim (map leaves cs) hd p q in
        let rise = splits_rise (length cs) dim (map leaves cs) ws w l c in
        let a =
          volumes-over_children parts_of P v h (splits floats (length cs) dim ws) 0 cs f rise in
        let b = ap (λ k. k * v) (splits_begin (length cs) dim (map leaves cs) ws w l c) in
        let e = ap (λ k. k * v) (splits_end (length cs) dim (map leaves cs) ws w l c) in omega arith

    -- A filled tree with at most so many leaves.
    abbrev IsSmall : (d : ℕ) → Cut d → Type 0
    IsSmall d c = IsFilled d c × (sum_leaves d c ≤ limit)

    Each-IsSmall :
        (d : ℕ) (cs : List (Cut d))
        → Each (IsFilled d) cs
        → sum (map (sum_leaves d) cs) ≤ limit
        → Each (IsSmall d) cs
    Each-IsSmall d [] f h = tt
    Each-IsSmall d (c ∷ cs) f h = ((f.0, omega arith), Each-IsSmall d cs f.1 (omega arith))

    pub volumes-bct_to_partitions_bounds :
        (d : ℕ) (dims : Dims (suc d)) (t : Cut (suc d))
        → IsWithin limit (suc d) dims
        → IsFilled (suc d) t
        → sum_leaves (suc d) t ≤ limit
        → volumes (bct_to_partitions_bounds floats d dims t) ≡ n_cells (suc d) dims
    unfolding bct_to_partitions_bounds sum_leaves
    volumes-bct_to_partitions_bounds zero (dim, dims) (c, cs) w f h =
        volumes_level (last_parts floats dims) (IsSmall 0) (sum_leaves 0) dim dims
          (λ k g. volumes-last_parts dims k w.1 g.0 g.1) (c ∷ cs) (Each-IsSmall 0 (c ∷ cs) f h) w.0
          (sum_leaves_positive 1 (c, cs) f) h
    volumes-bct_to_partitions_bounds (suc d) (dim, dims) (c, cs) w f h =
        volumes_level (bct_to_partitions_bounds floats d dims) (IsSmall (suc d))
          (sum_leaves (suc d)) dim (n_cells (suc d) dims)
          (λ k g. volumes-bct_to_partitions_bounds d dims k w.1 g.0 g.1) (c ∷ cs)
          (Each-IsSmall (suc d) (c ∷ cs) f h) w.0 (sum_leaves_positive (suc (suc d)) (c, cs) f) h
