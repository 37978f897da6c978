-- ===== src/Graph/StackLaws.antt =====
-- The loop over the stack does what the recursion on the tree does.
use mathlib.Core.Option
use mathlib.Core.List.{reverse}
use maia.Base.{
  ℕ, zero, suc, ◌+◌, ◌≤◌, ◌≡◌, refl, ap, ◌∙◌, List, [], ◌∷◌, false, Option, none, some, map, arith,
}
use maia.Graph.Stack.{
  Step, into, over, out, Graph, Level, Visitor, next_level, nodes, is_done, level_is_done,
  leave_level, go_down, follow, is_at_root_level, search_loop, unwind, finish, proceed,
  depth_first_search, new_stack, State, push_level, push_done_level, push_siblings, current_node,
}
use maia.Graph.Traversal.{
  Rose, rose, Roses, nil, cons, top, tops, Unfolds, UnfoldsEach, turns, turns_each, Flow, goes_on,
  stopped_at, and_then, choose, path, enter, pass, visit, visit_each, climb, result, traverse,
}

module _ {N : Type 0} where
  -- The levels above a node, each with a node and the siblings that follow it.
  abbrev levels : List (N × List N) → List (Level N)
  levels [] = []
  levels ((n, ns) ∷ fs) = record { node = some n; iterator = some ns } ∷ levels fs

  abbrev names : List (N × List N) → List N
  names [] = []
  names ((n, ns) ∷ fs) = n ∷ names fs

  map-levels :
      (fs : List (N × List N)) → map (λ l. l.node) (levels fs) ≡ map (λ n. some n) (names fs)
  map-levels [] = refl
  map-levels ((n, ns) ∷ fs) = ap (λ l. some n ∷ l) (map-levels fs)

  nodes-levels :
      (fs : List (N × List N)) → nodes (levels fs) ≡ reverse (map (λ n. some n) (names fs))
  unfolding nodes
  nodes-levels fs = ap reverse (map-levels fs)

  is_done-some :
      (n : N) (i : Option (List N)) (s : List (Level N))
      → is_done (record { node = some n; iterator = i } ∷ s) ≡ false
  unfolding is_done
  is_done-some n i s = ground arith

  two_levels : (l m : Level N) (s : List (Level N)) → is_at_root_level (l ∷ m ∷ s) ≡ false
  unfolding is_at_root_level
  two_levels l m s = ground arith

no_fuel : (k : ℕ) → suc k ≤ 0 → ⊥
no_fuel k h = omega arith

module _ {N S : Type 0} (f : Visitor N S) where
  unwind-climb :
      (n : N) (ns : List N) (fs : List (N × List N)) (v : S)
      → unwind f (levels ((n, ns) ∷ fs)) v ≡ climb f n (names fs) v
  unfolding unwind climb
  unwind-climb n ns [] v = ap (λ p. f.post p v) (nodes-levels ((n, ns) ∷ []))
  unwind-climb n ns ((a, bs) ∷ fs) v =
      rw (nodes-levels ((n, ns) ∷ (a, bs) ∷ fs)) (unwind-climb a bs fs _)

  leave_level-pass :
      (i : Option (List N)) (n : N) (rs : Roses N) (fs : List (N × List N)) (v : S)
      → leave_level f (record { node = none; iterator = i } ∷ levels ((n, tops rs) ∷ fs), v)
        ≡ some (
          next_level (tops rs) ∷ levels fs,
          pass f n rs (names fs) (f.post (path f n (names fs)) v),
        )
  unfolding leave_level Option.bind
  leave_level-pass i n rs [] v = rw (nodes-levels ((n, tops rs) ∷ [])) refl
  leave_level-pass i n nil ((a, bs) ∷ fs) v =
      rw (nodes-levels ((n, []) ∷ (a, bs) ∷ fs), two_levels _ _ (levels fs)) refl
  leave_level-pass i n (cons r rs) ((a, bs) ∷ fs) v =
      rw (nodes-levels ((n, tops (cons r rs)) ∷ (a, bs) ∷ fs), two_levels _ _ (levels fs))
        (rw (map-levels fs) refl)

  go_down-enter :
      (cs : Roses N) (n : N) (ns : List N) (fs : List (N × List N)) (v : S)
      → go_down f (push_siblings (tops cs) (levels ((n, ns) ∷ fs)), v)
        ≡ (next_level (tops cs) ∷ levels ((n, ns) ∷ fs), enter f cs (n ∷ names fs) v)
  unfolding go_down push_siblings
  go_down-enter nil n ns fs v = refl
  go_down-enter (cons r rs) n ns fs v = rw (map-levels fs) refl

  module _ (g : Graph N) where
    -- With this much fuel or more, the search comes to this end.
    abbrev EndsIn : ℕ → State f → Option N × S → Type 0
    EndsIn k s res = (fuel : ℕ) → k ≤ fuel → finish f (search_loop f g fuel s) ≡ some res

    -- The same after a part of the traversal.
    abbrev Continues : ℕ → Flow N S → (S → State f) → Option N × S → Type 0
    Continues k (goes_on v) next res = EndsIn k (next v) res
    Continues k (stopped_at n above v) next res = (some n, climb f n above v) ≡ res

    Continues-and_then :
        (j k : ℕ) (fl : Flow N S) (more : S → Flow N S) (next next' : S → State f)
        {res : Option N × S}
        → ((v : S) → Continues k (more v) next res → EndsIn j (next' v) res)
        → Continues k (and_then fl more) next res
        → Continues j fl next' res
    Continues-and_then j k (goes_on v) more next next' h c = h v c
    Continues-and_then j k (stopped_at n above v) more next next' h c = c

    -- One turn at a finished level.
    leave_turn :
        (k : ℕ) (i : Option (List N)) (n : N) (rs : Roses N) (fs : List (N × List N)) (v : S)
        {res : Option N × S}
        → EndsIn k
            (
              next_level (tops rs) ∷ levels fs,
              pass f n rs (names fs) (f.post (path f n (names fs)) v),
            )
            res
        → EndsIn (suc k) (record { node = none; iterator = i } ∷ levels ((n, tops rs) ∷ fs), v) res
    unfolding search_loop is_done level_is_done
    leave_turn k i n rs fs v e zero h = elim (no_fuel k h) [ ]
    leave_turn k i n rs fs v e (suc fuel) h =
        rw (two_levels _ _ (levels fs), leave_level-pass i n rs fs v) (e fuel (omega arith))

    -- One turn at a node, for each answer of `pre`.
    step_turn :
        (step : Option Step) (n : N) (cs rs : Roses N) (fs : List (N × List N)) (v : S) (k fuel : ℕ)
        {res : Option N × S}
        → g.children n ≡ tops cs
        → (Continues
              (suc k)
              (visit_each f cs (n ∷ names fs) (enter f cs (n ∷ names fs) v))
              (λ v'. (next_level [] ∷ levels ((n, tops rs) ∷ fs), v'))
              res
            → EndsIn
                (turns_each cs + suc k)
                (next_level (tops cs) ∷ levels ((n, tops rs) ∷ fs), enter f cs (n ∷ names fs) v)
                res)
        → Continues k
            (choose step
              (and_then
                (visit_each f cs (n ∷ names fs) (enter f cs (n ∷ names fs) v))
                (λ v'. goes_on (f.post (path f n (names fs)) v')))
              (goes_on (f.post (path f n (names fs)) v))
              (stopped_at n (names fs) v))
            (λ v'. (next_level (tops rs) ∷ levels fs, pass f n rs (names fs) v'))
            res
        → turns_each cs + suc k ≤ fuel
        → finish f (
            proceed f
              (levels ((n, tops rs) ∷ fs), v)
              (follow f g step (levels ((n, tops rs) ∷ fs), v))
              (search_loop f g fuel))
          ≡ some res
    unfolding follow push_level push_done_level Option.bind current_node
    step_turn none n cs rs fs v k fuel u each c h =
        rw (u, go_down-enter cs n (tops rs) fs v)
          (each
            (Continues-and_then (suc k) k _ _ _ _ (λ v' e. leave_turn k (some []) n rs fs v' e) c)
            fuel h)
    step_turn (some into) n cs rs fs v k fuel u each c h =
        rw (u, go_down-enter cs n (tops rs) fs v)
          (each
            (Continues-and_then (suc k) k _ _ _ _ (λ v' e. leave_turn k (some []) n rs fs v' e) c)
            fuel h)
    step_turn (some over) n cs rs fs v k fuel u each c h =
        leave_turn k none n rs fs v c fuel (omega arith)
    step_turn (some out) n cs rs fs v k fuel u each c h =
        ap some (ap (λ (w : S). (some n, w)) (unwind-climb n (tops rs) fs v) ∙ c)

    mutual
      unfolding visit turns Unfolds search_loop is_done level_is_done

      subtree_lem :
          (r : Rose N) (rs : Roses N) (fs : List (N × List N)) (v : S) (k : ℕ) {res : Option N × S}
          → Unfolds g r
          → Continues k
              (visit f r (names fs) v)
              (λ v'. (next_level (tops rs) ∷ levels fs, pass f (top r) rs (names fs) v'))
              res
          → EndsIn (turns r + k) (levels ((top r, tops rs) ∷ fs), v) res
      subtree_lem (rose n cs) rs fs v k u c zero h =
          elim (no_fuel (1 + turns_each cs + k) (omega arith)) [ ]
      subtree_lem (rose n cs) rs fs v k u c (suc fuel) h =
          rw (is_done-some n (some (tops rs)) (levels fs), nodes-levels ((n, tops rs) ∷ fs))
            (step_turn (f.pre (path f n (names fs)) v).1 n cs rs fs
              (f.pre (path f n (names fs)) v).0 k fuel u.0
              (siblings_lem cs ((n, tops rs) ∷ fs) _ (suc k) u.1) c (omega arith))

      siblings_lem :
          (rs : Roses N) (fs : List (N × List N)) (v : S) (k : ℕ) {res : Option N × S}
          → UnfoldsEach g rs
          → Continues k (visit_each f rs (names fs) v) (λ v'. (next_level [] ∷ levels fs, v')) res
          → EndsIn (turns_each rs + k) (next_level (tops rs) ∷ levels fs, v) res
      siblings_lem nil fs v k u c fuel h = c fuel (omega arith)
      siblings_lem (cons r rs) fs v k u c fuel h =
          subtree_lem r rs fs v (turns_each rs + k) u.0
            (Continues-and_then _ k (visit f r (names fs) v) _ _ _
              (λ v'. siblings_lem rs fs _ k u.1) c)
            fuel (omega arith)

    finished : (v : S) → EndsIn 0 (next_level [] ∷ [], v) (none, v)
    unfolding search_loop is_done is_at_root_level level_is_done
    finished v zero h = refl
    finished v (suc fuel) h = refl

    at_the_end : (fl : Flow N S) → Continues 0 fl (λ v. (next_level [] ∷ [], v)) (result f fl)
    at_the_end (goes_on v) = finished v
    at_the_end (stopped_at n above v) = refl

    new_stack-tops : (rs : Roses N) → g.roots ≡ tops rs → new_stack g ≡ next_level (tops rs) ∷ []
    unfolding new_stack push_siblings
    new_stack-tops nil e = ap (λ ns. push_siblings ns []) e
    new_stack-tops (cons r rs) e = ap (λ ns. push_siblings ns []) e

    -- On a graph whose part under the roots is a finite tree, `depth_first_search` ends, with fuel
    -- for two turns a node, and raises nothing. It calls the visitor as the recursion on the tree
    -- does, and returns the node at which the visitor stopped it, if any.
    pub depth_first_search-traverse :
        (rs : Roses N) (fuel : ℕ) (v : S)
        → g.roots ≡ tops rs
        → UnfoldsEach g rs
        → turns_each rs ≤ fuel
        → depth_first_search f g fuel v ≡ some (traverse f rs v)
    unfolding depth_first_search traverse
    depth_first_search-traverse rs fuel v e u h =
        ap (λ s. finish f (search_loop f g fuel (s, v))) (new_stack-tops rs e)
        ∙ siblings_lem rs [] v 0 u (at_the_end (visit_each f rs [] v)) fuel (omega arith)
