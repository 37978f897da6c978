-- ===== src/Pytree/Remove.antt =====
-- `maia/pytree/walk/remove_nodes.py`: the functions collect the indices of the children to
-- delete, then delete them from the last to the first.
pub mod Laws
pub mod Deep
use maia.Base.{ℕ, zero, suc, ltb, leb, List, [], ◌∷◌, Bool, not, Option, none, some, if◌then◌else◌}
use mathlib.Core.List.{reverse}
use maia.Pytree.Node.{Node, node, Children, nil, cons}

module _ {V : Type 0} where
  -- `del children[i]`
  unfoldable pub delete_at : ℕ → Children V → Children V
  delete_at i nil = nil
  delete_at zero (cons c cs) = cs
  delete_at (suc i) (cons c cs) = cons c (delete_at i cs)

  -- The loop over the collected indices.
  unfoldable pub delete_each : List ℕ → Children V → Children V
  unfolding delete_at
  delete_each [] cs = cs
  delete_each (i ∷ is) cs = delete_each is (delete_at i cs)

module _ {V : Type 0} (p : Node V → Bool) where
  -- The indices of the matching children, the first of which has index `i`.
  unfoldable pub matching : ℕ → Children V → List ℕ
  matching i nil = []
  matching i (cons c cs) = if p c then i ∷ matching (suc i) cs else matching (suc i) cs

  -- `rm_children_from_predicate`
  unfoldable pub rm_children : Node V → Node V
  unfolding delete_each matching
  rm_children (node n v cs l) = node n v (delete_each (reverse (matching 0 cs)) cs) l

  -- `rm_nodes_from_predicate__`: a child that matches is left as it is until it is deleted.
  unfoldable mutual
    pub rm_nodes_unlimited : Node V → Node V
    rm_nodes_unlimited (node n v cs l) =
        node n v (delete_each (reverse (matching 0 cs)) (rm_in_each cs)) l

    pub rm_in_each : Children V → Children V
    rm_in_each nil = nil
    rm_in_each (cons c cs) = cons (if p c then c else rm_nodes_unlimited c) (rm_in_each cs)

  -- `rm_nodes_from_predicate_with_level__`
  unfoldable mutual
    pub rm_nodes_with_level : Node V → ℕ → ℕ → Node V
    rm_nodes_with_level (node n v cs l) depth level =
        node n v (delete_each (reverse (matching 0 cs)) (rm_in_each_with_level cs depth level)) l

    pub rm_in_each_with_level : Children V → ℕ → ℕ → Children V
    rm_in_each_with_level nil depth level = nil
    rm_in_each_with_level (cons c cs) depth level =
        cons
          (if p c
            then c
            else if ltb level depth
            then rm_nodes_with_level c depth (suc level)
            else c)
          (rm_in_each_with_level cs depth level)

  -- `rm_nodes_from_predicate`: no depth, or depth 0, is no limit.
  unfoldable pub rm_nodes : Option ℕ → Node V → Node V
  rm_nodes none root = rm_nodes_unlimited root
  rm_nodes (some depth) root =
      if leb 1 depth then rm_nodes_with_level root depth 1 else rm_nodes_unlimited root

-- `keep_children_from_predicate`
unfoldable pub keep_children : {V : Type 0} → (Node V → Bool) → Node V → Node V
unfolding rm_children
keep_children p = rm_children (λ n. not (p n))
