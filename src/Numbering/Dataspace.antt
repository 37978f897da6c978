-- ===== src/Numbering/Dataspace.antt =====
-- `maia/io/hdf/hdf_dataspace.py`: the part of an array that a process reads or writes, in the form
-- that the file library takes. A distribution does not end before it begins.
use maia.Base.{ℕ, ◌-◌, ◌==◌, List, [], ◌∷◌, Option, none, some, if◌then◌else◌, length, map, concat}
use maia.Base.Result.{Result, ok, ◌>>=◌}
use maia.Numbering.Slabs.{Slab, compute_slabs}

-- `distrib`
pub record Distribution : Type 0 where
  pub low : ℕ
  pub high : ℕ
  pub total : ℕ

-- An item of a dataspace: a list of numbers, or a list of such lists.
pub data Item : Type 0 where
  numbers : List ℕ → Item
  blocks : List (List ℕ) → Item

-- The four lists of one slab.
unfoldable pub slab_blocks : ℕ → Slab → List (List ℕ)
slab_blocks dim s =
    let (iS, iE) = s.i in
    let (jS, jE) = s.j in
    let (kS, kE) = s.k in
    if dim == 3
    then (iS ∷ jS ∷ kS ∷ [])
      ∷ (1 ∷ 1 ∷ 1 ∷ [])
      ∷ ((iE - iS) ∷ (jE - jS) ∷ (kE - kS) ∷ [])
      ∷ (1 ∷ 1 ∷ 1 ∷ [])
      ∷ []
    else (iS ∷ jS ∷ []) ∷ (1 ∷ 1 ∷ []) ∷ ((iE - iS) ∷ (jE - jS) ∷ []) ∷ (1 ∷ 1 ∷ []) ∷ []

-- `DSFILEDA`
unfoldable pub file_blocks : ℕ → List Slab → List (List ℕ)
unfolding slab_blocks
file_blocks dim [] =
    if dim == 3
    then (0 ∷ 0 ∷ 0 ∷ []) ∷ (1 ∷ 1 ∷ 1 ∷ []) ∷ (0 ∷ 0 ∷ 0 ∷ []) ∷ (1 ∷ 1 ∷ 1 ∷ []) ∷ []
    else (0 ∷ 0 ∷ []) ∷ (1 ∷ 1 ∷ []) ∷ (0 ∷ 0 ∷ []) ∷ (1 ∷ 1 ∷ []) ∷ []
file_blocks dim (s ∷ slabs) = concat (map (slab_blocks dim) (s ∷ slabs))

abbrev pub one : ℕ → Item
one n = numbers (n ∷ [])

unfoldable pub create_combined_dataspace : List ℕ → Distribution → Result (List Item)
unfolding file_blocks
create_combined_dataspace data_shape d = compute_slabs data_shape (d.low, d.high) >>= λ slab_list.
    let dn_da = d.high - d.low in
    ok (
      one 0
      ∷ one 1
      ∷ one dn_da
      ∷ one 1
      ∷ blocks (file_blocks (length data_shape) slab_list)
      ∷ numbers data_shape
      ∷ one 0
      ∷ [])

unfoldable pub create_flat_dataspace : Distribution → List Item
create_flat_dataspace d =
    let dn_da = d.high - d.low in
    one 0
    ∷ one 1
    ∷ one dn_da
    ∷ one 1
    ∷ one d.low
    ∷ one 1
    ∷ one dn_da
    ∷ one 1
    ∷ one d.total
    ∷ one 0
    ∷ []

abbrev pub pair : ℕ → ℕ → Item
pair m n = numbers (m ∷ n ∷ [])

unfoldable pub create_pe_dataspace : Distribution → List Item
create_pe_dataspace d =
    let dn_pe = d.high - d.low in
    pair 0 0
    ∷ pair 1 1
    ∷ pair dn_pe 2
    ∷ pair 1 1
    ∷ pair d.low 0
    ∷ pair 1 1
    ∷ pair dn_pe 2
    ∷ pair 1 1
    ∷ pair d.total 2
    ∷ one 1
    ∷ []

unfoldable pub create_pointlist_dataspace : Distribution → ℕ → List Item
create_pointlist_dataspace d idx_dim =
    let dn_pl = d.high - d.low in
    pair 0 0
    ∷ pair 1 1
    ∷ pair idx_dim dn_pl
    ∷ pair 1 1
    ∷ pair 0 d.low
    ∷ pair 1 1
    ∷ pair idx_dim dn_pl
    ∷ pair 1 1
    ∷ pair idx_dim d.total
    ∷ one 0
    ∷ []

unfoldable pub create_data_array_filter : Distribution → Option (List ℕ) → Result (List Item)
unfolding create_flat_dataspace create_combined_dataspace
create_data_array_filter d none = ok (create_flat_dataspace d)
create_data_array_filter d (some data_shape) =
    if length data_shape == 1
    then ok (create_flat_dataspace d)
    else create_combined_dataspace data_shape d
