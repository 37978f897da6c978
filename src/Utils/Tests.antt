-- ===== src/Utils/Tests.antt =====
-- Runs of the helpers on lists and numbers, and the theorems on them at small inputs.
use maia.Base.{
  ltb, ℕ, suc, ◌-◌, ◌+◌, ◌≤◌, ◌<◌, ◌==◌, ◌≡◌, refl, List, [], ◌∷◌, Bool, true, not, none, arith,
}
use maia.Base.Result.{ok}
use maia.Utils.Distribution.{uniform_distribution_at, uniform_distribution}
use maia.Utils.DistributionLaws.{uniform_distribution_at-tiles, uniform_distribution_at-balanced}
use maia.Utils.Lists.{bucket_split}
use maia.Utils.Sequences.{set_intersection_difference, Split}

distribution_run : uniform_distribution 10 1 4 ≡ 3 ∷ 6 ∷ 10 ∷ []
unfolding uniform_distribution uniform_distribution_at
distribution_run = refl

uniform_distribution_at-tiles_example :
    ((uniform_distribution_at 10 0 4).0 ≡ 0)
    × ((i : ℕ)
        → suc i < 4
        → (uniform_distribution_at 10 (suc i) 4).0 ≡ (uniform_distribution_at 10 i 4).1)
    × ((uniform_distribution_at 10 (4 - 1) 4).1 ≡ 10)
uniform_distribution_at-tiles_example = uniform_distribution_at-tiles 10 4 (omega arith)

uniform_distribution_at-balanced_example :
    let a = uniform_distribution_at 10 1 4 in
    let b = uniform_distribution_at 10 3 4 in (b.1 - b.0 ≤ a.1 - a.0) × (a.1 - a.0 ≤ b.1 - b.0 + 1)
uniform_distribution_at-balanced_example = uniform_distribution_at-balanced 10 1 3 4 (omega arith)

abbrev items : List ℕ
items = 4 ∷ 7 ∷ 1 ∷ 8 ∷ []

abbrev is_big : ℕ → Bool
is_big n = not (n == 1)

bucket_run : bucket_split (0 ∷ 2 ∷ 0 ∷ []) (λ n. n) true none ≡ ok ((0 ∷ 0 ∷ []) ∷ (2 ∷ []) ∷ [])
unfolding bucket_split
bucket_run = refl

abbrev split_items : Split ℕ
split_items = set_intersection_difference ltb items (1 ∷ 7 ∷ 9 ∷ [])
