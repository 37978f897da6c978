-- ===== src/Graph/Traversal.antt =====
-- A depth-first traversal as a recursion on a tree, for comparison with the stack.
use mathlib.Core.List.{reverse}
use maia.Base.{ℕ, ◌+◌, ◌≡◌, List, [], ◌∷◌, Option, none, some, map}
use maia.Graph.Stack.{Step, into, over, out, Graph, Visitor}

-- A tree with a node of a graph at each place.
mutual
  pub data Rose (N : Type 0) : Type 0 where
    rose : N → Roses N → Rose N

  pub data Roses (N : Type 0) : Type 0 where
    nil : Roses N
    cons : Rose N → Roses N → Roses N

module _ {N : Type 0} where
  abbrev pub top : Rose N → N
  top (rose n cs) = n

  abbrev pub tops : Roses N → List N
  tops nil = []
  tops (cons r rs) = top r ∷ tops rs

  -- The tree is what the graph has under its node.
  unfoldable mutual
    pub Unfolds : Graph N → Rose N → Type 0
    Unfolds g (rose n cs) = (g.children n ≡ tops cs) × UnfoldsEach g cs

    pub UnfoldsEach : Graph N → Roses N → Type 0
    UnfoldsEach g nil = Unit
    UnfoldsEach g (cons r rs) = Unfolds g r × UnfoldsEach g rs

  -- The turns of the loop that a tree takes.
  unfoldable mutual
    pub turns : Rose N → ℕ
    turns (rose n cs) = 2 + turns_each cs

    pub turns_each : Roses N → ℕ
    turns_each nil = 0
    turns_each (cons r rs) = turns r + turns_each rs

-- A traversal goes on, or was stopped at a node: that node and its ancestors.
pub data Flow (N S : Type 0) : Type 0 where
  goes_on : S → Flow N S
  stopped_at : N → List N → S → Flow N S

module _ {N S : Type 0} where
  abbrev pub and_then : Flow N S → (S → Flow N S) → Flow N S
  and_then (goes_on v) k = k v
  and_then (stopped_at n above v) k = stopped_at n above v

  -- What comes of a step, from what comes of going into the children, over them, or out.
  abbrev pub choose : Option Step → Flow N S → Flow N S → Flow N S → Flow N S
  choose none a b c = a
  choose (some into) a b c = a
  choose (some over) a b c = b
  choose (some out) a b c = c

module _ {N S : Type 0} (f : Visitor N S) where
  -- The path to a node, from the root, from its ancestors, the nearest first.
  abbrev pub path : N → List N → List (Option N)
  path n above = reverse (map (λ (m : N). some m) (n ∷ above))

  -- Down to the first of the siblings.
  abbrev pub enter : Roses N → List N → S → S
  enter nil above v = v
  enter (cons r rs) above v = f.down (path (top r) above) v

  -- From a child up to its parent and down to the next sibling; the roots have no parent.
  abbrev pub pass : N → Roses N → List N → S → S
  pass n rs [] v = v
  pass n rs (a ∷ above) v = enter rs (a ∷ above) (f.up (path n (a ∷ above)) v)

  unfoldable mutual
    -- `pre`, then the children, then `post`.
    pub visit : Rose N → List N → S → Flow N S
    visit (rose n cs) above v =
        let (v₁, step) = f.pre (path n above) v in
        choose step
          (and_then (visit_each cs (n ∷ above) (enter cs (n ∷ above) v₁))
            (λ v₂. goes_on (f.post (path n above) v₂)))
          (goes_on (f.post (path n above) v₁)) (stopped_at n above v₁)

    pub visit_each : Roses N → List N → S → Flow N S
    visit_each nil above v = goes_on v
    visit_each (cons r rs) above v =
        and_then (visit r above v) (λ v₁. visit_each rs above (pass (top r) rs above v₁))

  -- `post` and `up` from the node to the root.
  unfoldable pub climb : N → List N → S → S
  climb n [] v = f.post (path n []) v
  climb n (a ∷ above) v = climb a above (f.up (path n (a ∷ above)) (f.post (path n (a ∷ above)) v))

  abbrev pub result : Flow N S → Option N × S
  result (goes_on v) = (none, v)
  result (stopped_at n above v) = (some n, climb n above v)

  unfoldable pub traverse : Roses N → S → Option N × S
  unfolding visit_each climb
  traverse rs v = result (visit_each rs [] v)
