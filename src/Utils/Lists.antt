-- ===== src/Utils/Lists.antt =====
-- The list helpers of `maia/utils/py_utils.py` and `maia/pytree/sids/utils.py`. Equality of items
-- is the test `eq`.
use maia.Base.{
  ℕ, zero, suc, ◌+◌, ◌-◌, ltb, leb, ◌==◌, max, List, [], ◌∷◌, ◌++◌, Bool, true, false, ◌&&◌, Option,
  none, some, if◌then◌else◌, length, take, drop, replicate, concat, filter,
}
use maia.Base.{Text, text, text_eq}
use maia.Base.Result.{
  Result, ok, raised, value_error, runtime_error, index_error, ◌>>=◌, ◌>>◌, assert,
}

abbrev pub sum : List ℕ → ℕ
sum [] = 0
sum (n ∷ ns) = n + sum ns

abbrev pub size_or : Option ℕ → Result ℕ → Result ℕ
size_or none n = n
size_or (some n) _ = ok n

module _ {A : Type 0} where
  -- The loop of `to_nested_list`: the slice from `r_idx` for each count.
  unfoldable pub slices : List A → List ℕ → ℕ → List (List A)
  slices l [] r_idx = []
  slices l (n ∷ counts) r_idx = take n (drop r_idx l) ∷ slices l counts (r_idx + n)

  unfoldable pub to_nested_list : List A → List ℕ → Result (List (List A))
  to_nested_list l counts = assert (length l == sum counts) >> ok (slices l counts 0)

  unfoldable pub to_flat_list : List (List A) → List A
  to_flat_list nested = concat nested

  -- `result[i].append(e)`
  unfoldable pub append_at : ℕ → A → List (List A) → Result (List (List A))
  append_at i e [] = raised index_error
  append_at zero e (b ∷ bs) = ok ((b ++ (e ∷ [])) ∷ bs)
  append_at (suc i) e (b ∷ bs) = append_at i e bs >>= λ bs'. ok (b ∷ bs')

  unfoldable pub fill_buckets : (A → ℕ) → List A → List (List A) → Result (List (List A))
  unfolding append_at
  fill_buckets f [] result = ok result
  fill_buckets f (e ∷ l) result = append_at (f e) e result >>= λ r. fill_buckets f l r

  -- `max(f(e) for e in l) + 1`
  unfoldable pub bucket_count : (A → ℕ) → List A → Result ℕ
  bucket_count f [] = raised value_error
  bucket_count f (e ∷ []) = ok (f e + 1)
  bucket_count f (e ∷ d ∷ l) = bucket_count f (d ∷ l) >>= λ n. ok (max (f e + 1) n)

  abbrev pub is_not_empty : List A → Bool
  is_not_empty [] = false
  is_not_empty (x ∷ xs) = true

  unfoldable pub bucket_split : List A → (A → ℕ) → Bool → Option ℕ → Result (List (List A))
  unfolding fill_buckets bucket_count
  bucket_split l f compress size = do
    n ← size_or size (bucket_count f l)
    result ← fill_buckets f l (replicate n [])
    ok (if compress then filter is_not_empty result else result)

  -- `loop_from`: what the iterator yields.
  unfoldable pub loop_from : List A → ℕ → Result (List A)
  loop_from l i = assert (ltb i (length l)) >> ok (drop i l ++ take i l)

  -- `expects_one`
  unfoldable pub expects_one : List A → Result A
  expects_one [] = raised runtime_error
  expects_one (x ∷ []) = ok x
  expects_one (x ∷ y ∷ l) = raised runtime_error

module _ {A : Type 0} (eq : A → A → Bool) where
  abbrev pub contains : List A → A → Bool
  contains [] a = false
  contains (x ∷ xs) a = if eq x a then true else contains xs a

  unfoldable pub append_unique : List A → A → List A
  append_unique l item = if contains l item then l else l ++ (item ∷ [])

  unfoldable pub is_before : List A → A → A → Bool
  is_before [] a b = false
  is_before (e ∷ l) a b =
      let rest = is_before l a b in if eq e a then true else if eq e b then false else rest

-- `str_to_bools`. A list times a negative number is empty.
unfoldable pub str_to_bools : ℕ → Text → Result (List Bool)
str_to_bools size key =
    if text_eq key (text "none")
    then ok (replicate size false)
    else if text_eq key (text "all")
    then ok (replicate size true)
    else if text_eq key (text "ancestors")
    then ok (replicate (size - 1) true ++ (false ∷ []))
    else if text_eq key (text "leaf")
    then ok (replicate (size - 1) false ++ (true ∷ []))
    else raised value_error

-- `are_overlapping`
unfoldable pub are_overlapping : ℕ × ℕ → ℕ × ℕ → Bool → Result Bool
are_overlapping (s₁, e₁) (s₂, e₂) strict =
    assert (leb s₁ e₁ && leb s₂ e₂)
    >> ok (if strict then ltb s₁ e₂ && ltb s₂ e₁ else leb s₁ e₂ && leb s₂ e₁)
