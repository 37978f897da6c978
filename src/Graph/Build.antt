-- ===== src/Graph/Build.antt =====
-- `maia/pytree/graph/build.py`: a new tree is built from the bottom up along a traversal.
use mathlib.Core.Option
use maia.Base.{ℕ, ◌==◌, List, [], ◌∷◌, ◌++◌, Option, none, some, length}
use maia.Base.Result.{Result, ok, raised, index_error, type_error, assert, ◌>>=◌, ◌>>◌}
use maia.Graph.Stack.{Step, Graph}
use maia.Graph.Visitors.{Methods, Depth, depth_first_search_with}
use Depth.{node}

-- `*args` of a method that takes one argument.
abbrev pub one_argument : {N : Type 0} → List (Option N) → Result (Option N)
one_argument [] = raised type_error
one_argument (n ∷ []) = ok n
one_argument (n ∷ m ∷ args) = raised type_error

abbrev pub head_or_raise : {A : Type 0} → List A → Result A
head_or_raise [] = raised index_error
head_or_raise (x ∷ xs) = ok x

-- `if self._pre is not None: return self._pre(node)`
abbrev pub step_of : {N : Type 0} → Option (Option N → Option Step) → Option N → Option Step
step_of none n = none
step_of (some pre) n = pre n

unfoldable pub retrieve_composition_term : {T : Type 0} → List (List T) → Result (List T)
retrieve_composition_term stack = assert (length stack == 1) >> head_or_raise stack

module _ {N T : Type 0} where
  -- `_build_tree_visitor.post` on `_sub_tree_stack`, its last level first.
  abbrev pub deposit : (Option N → List T → T) → Option N → List (List T) → Result (List (List T))
  deposit ctor n [] = raised index_error
  deposit ctor n (children ∷ []) = raised index_error
  deposit ctor n (children ∷ siblings ∷ stack) = ok ((siblings ++ ctor n children ∷ []) ∷ stack)

  -- `_build_tree_visitor.pre` and `post`, on their arguments.
  abbrev pub build_pre :
      Option (Option N → Option Step)
      → List (Option N)
      → List (List T)
      → Result (List (List T) × Option Step)
  build_pre pre args stack = one_argument args >>= λ n. ok ([] ∷ stack, step_of pre n)

  abbrev pub build_post :
      (Option N → List T → T) → List (Option N) → List (List T) → Result (List (List T))
  build_post ctor args stack = one_argument args >>= λ n. deposit ctor n stack

  unfoldable pub build_tree_visitor :
      (Option N → List T → T) → Option (Option N → Option Step) → Methods N (List (List T))
  build_tree_visitor ctor pre = record {
    pre = some (build_pre pre);
    post = some (build_post ctor);
    down = none;
    up = none;
  }

  unfoldable pub depth_first_build_trees :
      Graph N
      → (Option N → List T → T)
      → Option (Option N → Option Step)
      → ℕ
      → Option (Result (List T))
  unfolding build_tree_visitor retrieve_composition_term
  depth_first_build_trees g ctor pre fuel =
      Option.map (λ r. r >>= λ out. retrieve_composition_term out.1)
        (depth_first_search_with g (build_tree_visitor ctor pre) node fuel ([] ∷ []))

  unfoldable pub depth_first_build :
      Graph N → (Option N → List T → T) → Option (Option N → Option Step) → ℕ → Option (Result T)
  unfolding depth_first_build_trees
  depth_first_build g ctor pre fuel =
      Option.map (λ r. r >>= λ ts. assert (length ts == 1) >> head_or_raise ts)
        (depth_first_build_trees g ctor pre fuel)
