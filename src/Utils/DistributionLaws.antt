-- ===== src/Utils/DistributionLaws.antt =====
-- The intervals of a distribution follow one another and cover the elements.
use native.Mathlib.Nat.{div-add-mod', mod-lt, mul-suc, mul_comm}
use maia.Base.{ℕ, zero, suc, ◌+◌, ◌-◌, ◌*◌, ◌/◌, ◌%◌, ◌≤◌, ◌<◌, ◌≡◌, ap, ◌∙◌, arith}
use maia.Utils.Distribution.{uniform_distribution_at}

mul_suc_comm : (q k : ℕ) → q * suc k ≡ k * q + q
mul_suc_comm q k = mul-suc q k ∙ ap (λ a. a + q) (mul_comm q k)

last-of-intervals : (n k : ℕ) → (uniform_distribution_at n k (suc k)).1 ≡ n
unfolding uniform_distribution_at
last-of-intervals n k =
    let lt : n % suc k < suc k = mod-lt n (omega arith) in
    ground (arith, div-add-mod' n (suc k), lt, mul_suc_comm (n / suc k) k)

sub_one : (k : ℕ) → suc k - 1 ≡ k
sub_one k = omega arith

last-interval : (n m : ℕ) → 0 < m → (uniform_distribution_at n (m - 1) m).1 ≡ n
last-interval n zero h = omega arith
last-interval n (suc k) h = rw (sub_one k) (last-of-intervals n k)

-- The first interval begins at 0, each begins where the one before it ends, the last ends at the
-- number of elements.
pub uniform_distribution_at-tiles :
    (n_elt n_interval : ℕ)
    → 0 < n_interval
    → ((uniform_distribution_at n_elt 0 n_interval).0 ≡ 0)
      × ((i : ℕ)
          → suc i < n_interval
          → (uniform_distribution_at n_elt (suc i) n_interval).0
            ≡ (uniform_distribution_at n_elt i n_interval).1)
      × ((uniform_distribution_at n_elt (n_interval - 1) n_interval).1 ≡ n_elt)
unfolding uniform_distribution_at
uniform_distribution_at-tiles n m h = (ground arith, λ i l. grind arith, last-interval n m h)

-- Two intervals differ in size by one at most, and the larger come first.
pub uniform_distribution_at-balanced :
    (n_elt i j n_interval : ℕ)
    → i < j
    → let a = uniform_distribution_at n_elt i n_interval in
      let b = uniform_distribution_at n_elt j n_interval in
      (b.1 - b.0 ≤ a.1 - a.0) × (a.1 - a.0 ≤ b.1 - b.0 + 1)
unfolding uniform_distribution_at
uniform_distribution_at-balanced n i j m h = ground arith
