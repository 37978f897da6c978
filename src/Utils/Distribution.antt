-- ===== src/Utils/Distribution.antt =====
-- `uniform_distribution_at` of `maia/utils/py_utils.py`, and `gathering_distribution` and
-- `uniform_distribution` of `maia/utils/parallel/utils.py`. Of a communicator they read the rank
-- and the size.
use maia.Base.{ℕ, ◌+◌, ◌*◌, ◌/◌, ◌%◌, List, [], ◌∷◌, ltb, ◌==◌, if◌then◌else◌}

-- `inf, sup`. The source divides by `n_interval`, which is not 0: it is the size of a communicator.
unfoldable pub uniform_distribution_at : ℕ → ℕ → ℕ → ℕ × ℕ
uniform_distribution_at n_elt i n_interval =
    let step = n_elt / n_interval in
    let remainder = n_elt % n_interval in
    if ltb i remainder
    then (i * (step + 1), i * (step + 1) + step + 1)
    else (i * step + remainder, i * step + remainder + step)

unfoldable pub gathering_distribution : ℕ → ℕ → ℕ → List ℕ
gathering_distribution i_rank n_elt rank =
    if ltb rank i_rank
    then 0 ∷ 0 ∷ n_elt ∷ []
    else if rank == i_rank
    then 0 ∷ n_elt ∷ n_elt ∷ []
    else n_elt ∷ n_elt ∷ n_elt ∷ []

unfoldable pub uniform_distribution : ℕ → ℕ → ℕ → List ℕ
uniform_distribution n_elt rank size =
    let (low, high) = uniform_distribution_at n_elt rank size in low ∷ high ∷ n_elt ∷ []
