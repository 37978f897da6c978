-- ===== src/Pytree/Node.antt =====
-- `maia/pytree/node/access.py`: a CGNS node is the list `[name, value, children, label]`.
use maia.Base.{ℕ, suc, ◌+◌, List, [], ◌∷◌, Option, Text}

mutual
  -- `V` stands for the numpy arrays that are values, which the tree library only passes on.
  pub data Node (V : Type 0) : Type 0 where
    node : Text → Option V → Children V → Text → Node V

  -- The list `node[2]`.
  pub data Children (V : Type 0) : Type 0 where
    nil : Children V
    cons : Node V → Children V → Children V

module _ {V : Type 0} where
  abbrev pub get_name : Node V → Text
  get_name (node n v cs l) = n

  abbrev pub get_children : Node V → Children V
  get_children (node n v cs l) = cs

  abbrev pub to_list : Children V → List (Node V)
  to_list nil = []
  to_list (cons c cs) = c ∷ to_list cs

  unfoldable mutual
    pub size : Node V → ℕ
    size (node n v cs l) = suc (size_children cs)

    pub size_children : Children V → ℕ
    size_children nil = 0
    size_children (cons c cs) = size c + size_children cs
