-- ===== src/Graph/Visitors.antt =====
-- The visitors of `maia/pytree/graph/algo.py`: what a caller gives to `depth_first_search`, and what
-- the search calls. A method that raises ends the search; here the state is then the exception, and
-- every later call leaves it as it is.
use mathlib.Core.Option
use mathlib.Core.List.{reverse}
use maia.Base.{
  ℕ, ◌-◌, List, [], ◌∷◌, ◌++◌, Option, none, some, length, drop, replicate, leb, ltb, if◌then◌else◌,
}
use maia.Base.Result.{Result, ok, raised, index_error, assert, ◌>>=◌, ◌>>◌}
use maia.Graph.Stack.{Step, out, Graph, Visitor, depth_first_search}

-- The methods that a caller may define, each on the list of its arguments.
pub record Methods (N S : Type 0) : Type 0 where
  pub pre : Option (List (Option N) → S → Result (S × Option Step))
  pub post : Option (List (Option N) → S → Result S)
  pub down : Option (List (Option N) → S → Result S)
  pub up : Option (List (Option N) → S → Result S)

-- `depth`
pub data Depth : Type 0 where
  all node parent : Depth
  closest : ℕ → Depth

-- The visitor that the search calls, its methods complete.
pub record Complete (N S : Type 0) : Type 0 where
  pub pre : List (Option N) → S → Result (S × Option Step)
  pub post : List (Option N) → S → Result S
  pub down : List (Option N) → S → Result S
  pub up : List (Option N) → S → Result S

-- A method's answer for the search: an exception stops it.
abbrev pub answer : {S : Type 0} → Result (S × Option Step) → Result S × Option Step
answer (raised e) = (raised e, some out)
answer (ok (v, step)) = (ok v, step)

module _ {N : Type 0} where
  -- `_ancestors_list`, where `depth` is at least 1.
  unfoldable pub ancestors_list : ℕ → List (Option N) → List (Option N)
  ancestors_list depth ancestors =
      let res = drop (length ancestors - depth) ancestors in
      if ltb (length res) depth then replicate (depth - length res) none ++ res else res

  -- `ancestors[-2], ancestors[-1]`
  abbrev pub first_two : List (Option N) → Result (Option N × Option N)
  first_two [] = raised index_error
  first_two (b ∷ []) = raised index_error
  first_two (b ∷ a ∷ ancestors) = ok (a, b)

  unfoldable pub last_two : List (Option N) → Result (Option N × Option N)
  last_two ancestors = first_two (reverse ancestors)

module _ {N S : Type 0} where
  -- `getattr(v, f_name, _do_nothing)`
  abbrev pub or_nothing : Option (List (Option N) → S → Result S) → List (Option N) → S → Result S
  or_nothing none args v = ok v
  or_nothing (some f) args v = f args v

  abbrev pub or_no_step :
      Option (List (Option N) → S → Result (S × Option Step))
      → List (Option N)
      → S
      → Result (S × Option Step)
  or_no_step none args v = ok (v, none)
  or_no_step (some f) args v = f args v

  unfoldable pub complete_visitor : Methods N S → Complete N S
  complete_visitor v = record {
    pre = or_no_step v.pre;
    post = or_nothing v.post;
    down = or_nothing v.down;
    up = or_nothing v.up;
  }

  unfoldable pub close_ancestor_visitor : Complete N S → ℕ → Complete N S
  unfolding ancestors_list last_two
  close_ancestor_visitor f depth = record {
    pre = λ ancestors v. f.pre (ancestors_list depth ancestors) v;
    post = λ ancestors v. f.post (ancestors_list depth ancestors) v;
    down = λ ancestors v. last_two ancestors >>= λ p. f.down (p.0 ∷ p.1 ∷ []) v;
    up = λ ancestors v. last_two ancestors >>= λ p. f.up (p.1 ∷ p.0 ∷ []) v;
  }

  unfoldable pub adapt_visitor : Methods N S → Depth → Result (Complete N S)
  unfolding complete_visitor close_ancestor_visitor
  adapt_visitor f all = ok (complete_visitor f)
  adapt_visitor f node = ok (close_ancestor_visitor (complete_visitor f) 1)
  adapt_visitor f parent = ok (close_ancestor_visitor (complete_visitor f) 2)
  adapt_visitor f (closest depth) =
      assert (leb 1 depth) >> ok (close_ancestor_visitor (complete_visitor f) depth)

  abbrev pub visitor_of : Complete N S → Visitor N (Result S)
  visitor_of f = record {
    pre = λ ns r. answer (r >>= f.pre ns);
    post = λ ns r. r >>= f.post ns;
    down = λ ns r. r >>= f.down ns;
    up = λ ns r. r >>= f.up ns;
  }

  -- What a search that ended returns: the node where it was stopped, and the visitor's state.
  abbrev pub outcome : Option N × Result S → Result (Option N × S)
  outcome (n, r) = r >>= λ v. ok (n, v)

  abbrev pub search : Graph N → ℕ → S → Complete N S → Option (Result (Option N × S))
  search g fuel v f = Option.map outcome (depth_first_search (visitor_of f) g fuel (ok v))

  -- `depth_first_search` on a caller's visitor. `none` stands for a search that has not ended.
  unfoldable pub depth_first_search_with :
      Graph N → Methods N S → Depth → ℕ → S → Option (Result (Option N × S))
  unfolding adapt_visitor
  depth_first_search_with g f depth fuel v = elim (adapt_visitor f depth) [
    | raised e ↦ some (raised e)
    | ok c ↦ search g fuel v c
  ]
