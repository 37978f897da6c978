-- ===== src/Partitioning/CutTree.antt =====
-- The cut trees of `maia/factory/partitioning/split_S/balancing_cut_tree.py`.
--
-- The type of a tree says its number of levels, so that `depth` is no function here, and that every
-- list in it holds a tree. A level under the others is a list with one number, the number of leaves;
-- here it is the number. `Cut d` has `d + 1` levels, as the block has dimensions.
use maia.Base.{
  ℕ, zero, suc, ◌+◌, ◌==◌, ltb, List, [], ◌∷◌, ◌++◌, Bool, Option, none, some, if◌then◌else◌,
  length, get_elem?, map,
}
use mathlib.Core.Option
use maia.Utils.Lists.{sum}

abbrev pub Cut : ℕ → Type 0
Cut zero = ℕ
Cut (suc d) = Cut d × List (Cut d)

-- The numbers of cells in the directions of the levels.
abbrev pub Dims : ℕ → Type 0
Dims zero = ℕ
Dims (suc d) = ℕ × Dims d

abbrev pub children : {A : Type 0} → A × List A → List A
children (c, cs) = c ∷ cs

-- `init_cut_tree`, with `d + 1` levels.
unfoldable pub init_cut_tree : (d : ℕ) → Cut d
init_cut_tree zero = 1
init_cut_tree (suc d) = (init_cut_tree d, [])

unfoldable pub reset_sub_tree : (d : ℕ) → Cut d → Cut d
reset_sub_tree zero n = 1
reset_sub_tree (suc d) (c, cs) = (reset_sub_tree d c, map (reset_sub_tree d) cs)

unfoldable pub sum_leaves : (d : ℕ) → Cut d → ℕ
sum_leaves zero n = n
sum_leaves (suc d) (c, cs) = sum_leaves d c + sum (map (sum_leaves d) cs)

-- `weight`: the two numbers that are divided.
unfoldable pub weight : (d : ℕ) → Dims d → Cut d → ℕ × ℕ
weight zero dim n = (n, dim)
weight (suc d) (dim, dims) (c, cs) = (suc (length cs), dim)

-- The place of the first child with the least leaves: of the best one so far, at `best`, and of those
-- from `i` on.
unfoldable pub least_from : (d : ℕ) → ℕ → Cut d → ℕ → List (Cut d) → ℕ
unfolding sum_leaves
least_from d best candidate i [] = best
least_from d best candidate i (c ∷ cs) =
    let found = ltb (sum_leaves d c) (sum_leaves d candidate) in
    least_from d (if found then i else best) (if found then c else candidate) (suc i) cs

unfoldable pub child_with_least_leaves : (d : ℕ) → Cut (suc d) → ℕ
unfolding least_from
child_with_least_leaves d (c, cs) = least_from d 0 c 0 (c ∷ cs)

abbrev pub in_path : Bool → ℕ → Option (List ℕ) → Option (List ℕ)
in_path here i none = if here then some [] else none
in_path here i (some path) = some (i ∷ path)

abbrev pub or_top : Option (List ℕ) → List ℕ
or_top none = []
or_top (some path) = path

-- The `while` of `insert_child_at`, which inserts until there are `target` leaves. Out of fuel there
-- is no answer.
unfoldable pub refill : (d : ℕ) → (Cut d → Option (Cut d)) → ℕ → ℕ → Cut d → Option (Cut d)
unfolding sum_leaves
refill d insert zero target t = if sum_leaves d t == target then some t else none
refill d insert (suc fuel) target t =
    let next = Option.bind (insert t) (refill d insert fuel target) in
    if sum_leaves d t == target then some t else next

abbrev pub change : {A : Type 0} → (A → Option A) → ℕ → List A → Option (List A)
change f i [] = none
change f zero (c ∷ cs) = Option.bind (f c) (λ e. some (e ∷ cs))
change f (suc i) (c ∷ cs) = Option.bind (change f i cs) (λ es. some (c ∷ es))

abbrev pub in_child : {A : Type 0} → (A → Option A) → ℕ → A × List A → Option (A × List A)
in_child f zero (c, cs) = Option.bind (f c) (λ e. some (e, cs))
in_child f (suc i) (c, cs) = Option.bind (change f i cs) (λ es. some (c, es))

-- What the fuel has to be for a tree of `d + 1` levels with at most so many leaves.
abbrev pub budget : ℕ → ℕ → ℕ
budget leaves zero = suc leaves
budget leaves (suc d) = suc (suc leaves) + budget leaves d

-- `less` compares two quotients.
module _ (less : ℕ × ℕ → ℕ × ℕ → Bool) where
  -- The place of the node to insert at, as places of children from the starting node on; none if it is
  -- the node that was the candidate before, of the weight `w`.
  unfoldable pub select_insertion : (d : ℕ) → Dims d → Cut d → ℕ × ℕ → Option (List ℕ)
  unfolding weight child_with_least_leaves
  select_insertion zero dims n w = if less (weight zero dims n) w then some [] else none
  select_insertion (suc d) dims t w =
      let here = less (weight (suc d) dims t) w in
      let i = child_with_least_leaves d t in
      let below =
        Option.bind (get_elem? (children t) i)
          (λ c. select_insertion d dims.1 c (if here then weight (suc d) dims t else w)) in
      in_path here i below

  -- The node itself is the first candidate.
  abbrev pub insertion : (d : ℕ) → Dims d → Cut d → List ℕ
  insertion d dims t = or_top (select_insertion d dims t (weight d dims t))

  -- `insert_child_at` the node at the path, on fuel.
  unfoldable pub insert_child_at : ℕ → (d : ℕ) → Dims d → List ℕ → Cut d → Option (Cut d)
  unfolding select_insertion refill reset_sub_tree init_cut_tree sum_leaves
  insert_child_at zero d dims path t = none
  insert_child_at (suc fuel) zero dims path n = some (n + 1)
  insert_child_at (suc fuel) (suc d) dims (i ∷ path) t =
      in_child (insert_child_at fuel d dims.1 path) i t
  insert_child_at (suc fuel) (suc d) dims [] (c, cs) =
      refill (suc d) (λ t. insert_child_at fuel (suc d) dims (insertion (suc d) dims t) t) fuel
        (suc (sum_leaves (suc d) (c, cs)))
        (reset_sub_tree d c, map (reset_sub_tree d) cs ++ (init_cut_tree d ∷ []))

  unfoldable pub refine_cut_tree : (d : ℕ) → Dims d → Cut d → Option (Cut d)
  unfolding insert_child_at select_insertion
  refine_cut_tree d dims t =
      insert_child_at (budget (sum_leaves d t) d) d dims (insertion d dims t) t
