-- ===== src/Pytree/Walk/ChainWalkerLaws.antt =====
-- The cache of `NodesWalkers` is never stale.
use mathlib.Core.Option
use maia.Base.{
  List, [], ◌∷◌, Bool, true, false, Option, none, some, ◌≡◌, refl, ap, ◌∙◌, ◌⊎◌, Bool-cases, inl,
  inr, arith,
}
use maia.Base.Result.{Result, ok, raised, ◌>>=◌}
use maia.Pytree.Node.{Node}
use maia.Pytree.Walk.Chains.{Options}
use maia.Pytree.Walk.ChainWalker.{
  Predicates, Answer, NodesWalkers, is_filled, clean, new_walkers, set_root, set_predicates,
  set_ancestors, set_caching, iter_with_parents, iter_terminal, iter_fresh, with_cache,
  call_walkers,
}
use maia.Pytree.Walk.ApiLaws.{map_second-some}

-- What a user of the walker can do to it.
pub data ChainAction (V : Type 0) : Type 0 where
  root_to : Node V → ChainAction V
  predicates_to : Predicates V → ChainAction V
  ancestors_to caching_to : Bool → ChainAction V
  walk_it : ChainAction V

module _ {V : Type 0} where
  -- The walker after a call; one that raises or does not end leaves it as it was.
  abbrev pub walker_after :
      NodesWalkers V → Result (Option (NodesWalkers V × Answer V)) → NodesWalkers V
  walker_after w (raised e) = w
  walker_after w (ok none) = w
  walker_after w (ok (some (w', a))) = w'

  unfoldable pub chain_act : ChainAction V → NodesWalkers V → NodesWalkers V
  unfolding set_root set_predicates set_ancestors set_caching call_walkers
  chain_act (root_to n) w = set_root n w
  chain_act (predicates_to ps) w = set_predicates ps w
  chain_act (ancestors_to b) w = set_ancestors b w
  chain_act (caching_to b) w = set_caching b w
  chain_act walk_it w = walker_after w (call_walkers w)

  unfoldable pub chain_act_all : List (ChainAction V) → NodesWalkers V → NodesWalkers V
  chain_act_all [] w = w
  chain_act_all (a ∷ actions) w = chain_act_all actions (chain_act a w)

  -- The cache is empty, or holds what a new search finds.
  abbrev Holds : NodesWalkers V → Type 0
  Holds w = (is_filled w.cache ≡ false) ⊎ (iter_fresh w ≡ ok (some w.cache))

  abbrev answer : Result (Option (NodesWalkers V × Answer V)) → Result (Option (Answer V))
  answer r = r >>= λ o. ok (Option.map (λ a. a.1) o)

  iter_fresh-cache :
      (w : NodesWalkers V) (a : Answer V) → iter_fresh (record w { cache = a }) ≡ iter_fresh w
  unfolding iter_fresh iter_terminal iter_with_parents
  iter_fresh-cache w a = refl

  with_cache-Holds :
      (w : NodesWalkers V) (found : Result (Option (Answer V)))
      → iter_fresh w ≡ found
      → Holds w
      → Holds (walker_after w (with_cache w found))
  unfolding with_cache iter_fresh
  with_cache-Holds w (raised e) h c = c
  with_cache-Holds w (ok none) h c = elim (Bool-cases w.caching) [
    | inr k ↦ rw k c
    | inl k ↦ elim (Bool-cases (is_filled w.cache)) [ inl f ↦ rw (k, f) c | inr f ↦ rw (k, f) c ]
  ]
  with_cache-Holds w (ok (some a)) h c = elim (Bool-cases w.caching) [
    | inr k ↦ rw k c
    | inl k ↦ elim (Bool-cases (is_filled w.cache)) [
      | inl f ↦ rw (k, f) c
      | inr f ↦ rw (k, f) (inr (iter_fresh-cache w a ∙ h))
    ]
  ]

  filled-fresh :
      (w : NodesWalkers V) {r : Option (Answer V)}
      → iter_fresh w ≡ ok r
      → is_filled w.cache ≡ true
      → Holds w
      → some w.cache ≡ r
  filled-fresh w h f (inl n) = ground arith
  filled-fresh w h f (inr q) = cc

  answer_fresh :
      (w : NodesWalkers V) (found : Result (Option (Answer V)))
      → iter_fresh w ≡ found
      → Holds w
      → answer (with_cache w found) ≡ found
  unfolding with_cache
  answer_fresh w (raised e) h c = refl
  answer_fresh w (ok r) h c = elim (Bool-cases w.caching) [
    | inr k ↦ rw k (ap ok (map_second-some _ r))
    | inl k ↦ elim (Bool-cases (is_filled w.cache)) [
      | inl f ↦ rw (k, f) (ap ok (filled-fresh w h f c))
      | inr f ↦ rw (k, f) (ap ok (map_second-some _ r))
    ]
  ]

  chain_act-Holds : (a : ChainAction V) (w : NodesWalkers V) → Holds w → Holds (chain_act a w)
  unfolding chain_act set_root set_predicates set_ancestors set_caching clean call_walkers
  chain_act-Holds (root_to n) w c = inl refl
  chain_act-Holds (predicates_to ps) w c = inl refl
  chain_act-Holds (ancestors_to b) w c = inl refl
  chain_act-Holds (caching_to b) w c = inl refl
  chain_act-Holds walk_it w c = with_cache-Holds w (iter_fresh w) refl c

  chain_act_all-Holds :
      (actions : List (ChainAction V)) (w : NodesWalkers V)
      → Holds w
      → Holds (chain_act_all actions w)
  unfolding chain_act_all
  chain_act_all-Holds [] w c = c
  chain_act_all-Holds (a ∷ actions) w c =
      chain_act_all-Holds actions (chain_act a w) (chain_act-Holds a w c)

  -- A walker of a chain that was built and then changed and called in any order and number answers
  -- a call with what a new search with the settings of that moment finds or raises.
  pub call_walkers-fresh :
      (root : Node V) (ps : Predicates V) (o : Options) (ancestors caching : Bool)
      (actions : List (ChainAction V))
      → let w = chain_act_all actions (new_walkers root ps o ancestors caching) in
        call_walkers w >>= (λ r. ok (Option.map (λ a. a.1) r)) ≡ iter_fresh w
  unfolding new_walkers call_walkers
  call_walkers-fresh root ps o ancestors caching actions =
      let w = new_walkers root ps o ancestors caching in
      let after = chain_act_all actions w in
      answer_fresh after (iter_fresh after) refl (chain_act_all-Holds actions w (inl refl))
