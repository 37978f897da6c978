-- ===== src/Graph/Stack.antt =====
-- The traversal of `maia/pytree/graph/algo.py`: `graph_traversal_stack` and the loops over it. A
-- graph gives the roots and the children of a node as lists, and no node is `None`.
use mathlib.Core.Option
use mathlib.Core.List.{reverse}
use maia.Base.{
  ℕ, zero, suc, ◌==◌, List, [], ◌∷◌, Bool, true, false, Option, none, some, if◌then◌else◌, length,
  map,
}

-- What `pre` tells the search to do.
pub data Step : Type 0 where
  into over out : Step

pub record Graph (N : Type 0) : Type 0 where
  pub roots : List N
  pub children : N → List N

-- A level of the stack: `_nodes[i]`, and what is left in `_iterators[i]`, which may be `None`.
pub record Level (N : Type 0) : Type 0 where
  pub node : Option N
  pub iterator : Option (List N)

-- A visitor works on a state of its own. It is given `S.nodes()`, from the root to the node.
pub record Visitor (N S : Type 0) : Type 0 where
  pub pre : List (Option N) → S → S × Option Step
  pub post : List (Option N) → S → S
  pub down : List (Option N) → S → S
  pub up : List (Option N) → S → S

-- The stack, its last level first. An operation that Python would refuse is `none`.
module _ {N : Type 0} where
  -- `_push_level`
  unfoldable pub push_siblings : List N → List (Level N) → List (Level N)
  push_siblings [] s = record { node = none; iterator = some [] } ∷ s
  push_siblings (n ∷ ns) s = record { node = some n; iterator = some ns } ∷ s

  -- `push_level`
  unfoldable pub push_level : Graph N → List (Level N) → Option (List (Level N))
  unfolding push_siblings
  push_level g [] = none
  push_level g (l ∷ s) = Option.bind l.node (λ n. some (push_siblings (g.children n) (l ∷ s)))

  unfoldable pub pop_level : List (Level N) → Option (List (Level N))
  pop_level [] = none
  pop_level (l ∷ s) = some s

  -- `next(iterator)`, or `None` at its end.
  abbrev pub next_level : List N → Level N
  next_level [] = record { node = none; iterator = some [] }
  next_level (n ∷ ns) = record { node = some n; iterator = some ns }

  unfoldable pub advance_node_range : List (Level N) → Option (List (Level N))
  advance_node_range [] = none
  advance_node_range (l ∷ s) = Option.bind l.iterator (λ ns. some (next_level ns ∷ s))

  unfoldable pub advance_node_range_to_last : List (Level N) → Option (List (Level N))
  advance_node_range_to_last [] = none
  advance_node_range_to_last (l ∷ s) = some (record l { node = none } ∷ s)

  unfoldable pub push_done_level : List (Level N) → List (Level N)
  push_done_level s = record { node = none; iterator = none } ∷ s

  abbrev pub is_none : Option N → Bool
  is_none none = true
  is_none (some n) = false

  -- `current_node`, where no level stands for `None`.
  unfoldable pub current_node : List (Level N) → Option N
  current_node [] = none
  current_node (l ∷ s) = l.node

  unfoldable pub level_is_done : List (Level N) → Bool
  unfolding current_node
  level_is_done s = is_none (current_node s)

  unfoldable pub is_at_root_level : List (Level N) → Bool
  is_at_root_level s = length s == 1

  unfoldable pub is_done : List (Level N) → Bool
  unfolding is_at_root_level level_is_done
  is_done s = if is_at_root_level s then level_is_done s else false

  unfoldable pub nodes : List (Level N) → List (Option N)
  nodes s = reverse (map (λ l. l.node) s)

  -- `graph_traversal_stack(g)`
  unfoldable pub new_stack : Graph N → List (Level N)
  unfolding push_siblings
  new_stack g = push_siblings g.roots []

module _ {N S : Type 0} (f : Visitor N S) where
  abbrev pub State : Type 0
  State = List (Level N) × S

  -- `if not S.level_is_done(): f.down(S.nodes())`
  unfoldable pub go_down : State → State
  unfolding level_is_done nodes
  go_down (s, v) = if level_is_done s then (s, v) else (s, f.down (nodes s) v)

  -- The branch of `_depth_first_search_stack` for the node that `pre` has seen. `none` is `False`.
  unfoldable pub follow : Graph N → Option Step → State → Option (Option State)
  unfolding push_done_level push_level go_down
  follow g (some out) (s, v) = some none
  follow g (some over) (s, v) = some (some (push_done_level s, v))
  follow g (some into) (s, v) = Option.map (λ s'. some (go_down (s', v))) (push_level g s)
  follow g none (s, v) = Option.map (λ s'. some (go_down (s', v))) (push_level g s)

  -- The branch at the end of a level.
  unfoldable pub leave_level : State → Option State
  unfolding pop_level is_at_root_level advance_node_range go_down nodes
  leave_level (s, v) = Option.bind (pop_level s) λ s₁.
      let v₁ = f.post (nodes s₁) v in
      if is_at_root_level s₁
      then Option.map (λ s₂. (s₂, v₁)) (advance_node_range s₁)
      else Option.map (λ s₂. go_down (s₂, f.up (nodes s₁) v₁)) (advance_node_range s₁)

  -- What the search comes to: it is stopped or complete, fails, or runs out of fuel.
  pub data Outcome : Type 0 where
    stopped complete : State → Outcome
    failed out_of_fuel : Outcome

  abbrev pub proceed : State → Option (Option State) → (State → Outcome) → Outcome
  proceed s none more = failed
  proceed s (some none) more = stopped s
  proceed s (some (some next)) more = more next

  -- `_depth_first_search_stack`
  unfoldable pub search_loop : Graph N → ℕ → State → Outcome
  unfolding is_done level_is_done follow leave_level nodes
  search_loop g zero (s, v) = if is_done s then complete (s, v) else out_of_fuel
  search_loop g (suc fuel) (s, v) =
      if is_done s
      then complete (s, v)
      else if level_is_done s
      then elim (leave_level (s, v)) [ none ↦ failed | some next ↦ search_loop g fuel next ]
      else let (v₁, step) = f.pre (nodes s) v in
        proceed (s, v₁) (follow g step (s, v₁)) (search_loop g fuel)

  -- `unwind`, one turn for each level.
  unfoldable pub unwind : List (Level N) → S → S
  unfolding nodes
  unwind [] v = v
  unwind (l ∷ []) v = f.post (nodes (l ∷ [])) v
  unwind (l ∷ m ∷ s) v = unwind (m ∷ s) (f.up (nodes (l ∷ m ∷ s)) (f.post (nodes (l ∷ m ∷ s)) v))

  -- What `depth_first_search` returns, with the state of the visitor.
  abbrev pub finish : Outcome → Option (Option N × S)
  finish (stopped (s, v)) = some (current_node s, unwind s v)
  finish (complete (s, v)) = some (none, v)
  finish failed = none
  finish out_of_fuel = none

  -- `depth_first_search`, on a visitor that was adapted.
  unfoldable pub depth_first_search : Graph N → ℕ → S → Option (Option N × S)
  unfolding search_loop new_stack unwind current_node
  depth_first_search g fuel v = finish (search_loop g fuel (new_stack g, v))
