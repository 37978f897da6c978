-- ===== src/Pytree/Walk/Options.antt =====
-- `maia/pytree/walk/_node_parsers.py`: what every parser keeps, its depth range and the order of
-- the children. Of the callables that `sort` may be, the model has the two that the walkers name.
use maia.Base.{ℕ, ltb, List, [], ◌∷◌, ◌++◌, Bool, true, Option, none, some, or_else}
use maia.Pytree.Node.{Node, Children, nil, cons}

-- `FORWARD` and `BACKWARD` of the walkers.
pub data Sort : Type 0 where
  forward backward : Sort

-- `depth = [low, high]`, where no `high` is `None`.
pub record Depth : Type 0 where
  pub low : ℕ
  pub high : Option ℕ

abbrev pub everywhere : Depth
everywhere = record { low = 0; high = none }

-- `self.cond1`: there are levels below the root to look at.
unfoldable pub cond1 : Depth → Bool
cond1 d = elim (d.high) [ none ↦ true | some h ↦ ltb 0 h ]

-- `self.cond2(level)`: there is a level under this one to look at.
unfoldable pub cond2 : Depth → ℕ → Bool
cond2 d level = elim (d.high) [ none ↦ true | some h ↦ ltb level h ]

-- What the loop over `sort(children)` yields, from what the first child and the others do.
abbrev pub in_order {ℓ} : {A : Type ℓ} → Sort → List A → List A → List A
in_order forward xs ys = xs ++ ys
in_order backward xs ys = ys ++ xs

-- The same for a loop that returns at the first result that is not `None`.
abbrev pub first_of {ℓ} : {A : Type ℓ} → Sort → Option A → Option A → Option A
first_of forward a b = or_else a b
first_of backward a b = or_else b a

-- `sort(children)` as a list.
abbrev pub ordered : {V : Type 0} → Sort → Children V → List (Node V)
ordered s nil = []
ordered s (cons c cs) = in_order s (c ∷ []) (ordered s cs)
