-- ===== src/Pytree/Walk/Queue.antt =====
-- The loop that the breadth-first searches share, `while not temp.empty()`, and its rule.
use mathlib.Core.List.{Perm, perm_append_comm}
use mathlib.Core.List.Perm
use mathlib.Core.Option
use maia.Base.{
  ℕ, zero, suc, ◌+◌, ◌≤◌, ◌<◌, ◌≡◌, refl, ap, ◌∙◌, List, [], ◌∷◌, ◌++◌, Option, none, some, map,
  concat, append_assoc, map-append, arith,
}

-- `emit` is what one round yields and `next` what it puts at the end of the queue.
unfoldable pub queue_loop :
    {S A : Type 0} → (S → List A) → (S → List S) → ℕ → List S → Option (List A)
queue_loop emit next fuel [] = some []
queue_loop emit next zero (x ∷ queue) = none
queue_loop emit next (suc fuel) (x ∷ queue) =
    Option.map (λ rest. emit x ++ rest) (queue_loop emit next fuel (queue ++ next x))

abbrev pub total : {S : Type 0} → (S → ℕ) → List S → ℕ
total cost [] = 0
total cost (x ∷ xs) = cost x + total cost xs

pub total-append :
    {S : Type 0} (cost : S → ℕ) (xs ys : List S)
    → total cost (xs ++ ys) ≡ total cost xs + total cost ys
total-append cost [] ys = omega arith
total-append cost (x ∷ xs) ys = omega (arith, total-append cost xs ys)

pub concat-append :
    {A : Type 0} (xs ys : List (List A)) → concat (xs ++ ys) ≡ concat xs ++ concat ys
concat-append [] ys = refl
concat-append (x ∷ xs) ys = ap (λ (zs : List _). x ++ zs) (concat-append xs ys) ∙ rw append_assoc

module _ {S A : Type 0} (emit : S → List A) (next : S → List S) (cost : S → ℕ) (all : S → List A)
    (shrinks : (x : S) → total cost (next x) < cost x)
    (covers : (x : S) → all x ≡ emit x ++ concat (map all (next x))) where
  -- With as much fuel as the queue costs, the loop ends, and yields what `all` says, reordered.
  pub queue_loop_total :
      (fuel : ℕ) (queue : List S)
      → total cost queue ≤ fuel
      → (r : List A) × (queue_loop emit next fuel queue ≡ some r) × Perm r (concat (map all queue))
  unfolding queue_loop
  queue_loop_total fuel [] h = ([], refl, Perm.refl [])
  queue_loop_total zero (x ∷ queue) h = absurd (omega (arith, shrinks x))
  queue_loop_total (suc fuel) (x ∷ queue) h =
      let (r, e, q) =
        queue_loop_total fuel (queue ++ next x)
          (omega (arith, shrinks x, total-append cost queue (next x))) in
      (
        emit x ++ r,
        ap (Option.map (λ (rest : List A). emit x ++ rest)) e,
        Perm.trans (Perm.append_left (emit x) q) (rearranged x queue),
      )
    where
      rearranged :
          (x : S) (queue : List S)
          → Perm (emit x ++ concat (map all (queue ++ next x))) (all x ++ concat (map all queue))
      rearranged x queue =
          rw (map-append, concat-append, covers x, append_assoc)
            (Perm.append_left (emit x)
              (perm_append_comm (concat (map all queue)) (concat (map all (next x)))))
