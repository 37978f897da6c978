-- ===== src/Pytree/ByPathLaws.antt =====
-- Paths lead through a tree name by name, and nothing is left at a path that was removed.
use mathlib.Core.Option
use mathlib.Core.Option.{some-injective}
use maia.Base.{
  ℕ, ◌<◌, ◌-◌, ◌==◌, ◌≡◌, refl, ap, sym, ◌∙◌, List, [], ◌∷◌, ◌++◌, Bool, true, false, Option, none,
  some, if◌then◌else◌, Text, text_eq, text_eq_iff, has_code, length, take, drop, length-append,
  Bool-cases, inl, inr, arith,
}
use maia.Base.Int.{negsuc}
use maia.Base.Result.{Result, ok}
use maia.Pytree.Node.{Node, node, Children, nil, cons, get_name}
use maia.Pytree.Paths.{slash, onto_first, split, join, cut, path_head, path_tail}
use maia.Pytree.PathLaws.{length-split, join-split}
use maia.Pytree.Remove.{rm_nodes}
use maia.Pytree.Remove.Deep.{prune, prune_each, rm_nodes-prune}
use maia.Pytree.Walk.Predicate.{Libraries, match_name}
use maia.Pytree.ByPath.{
  first_named, follow, get_node_from_path, edit_first, edit_at, rm_node_from_path,
}

no_item : 0 < 0 → ⊥
no_item h = omega arith

onto_first-append :
    (c : ℕ) (ss ts : List Text) → 0 < length ss → onto_first c (ss ++ ts) ≡ onto_first c ss ++ ts
onto_first-append c [] ts h = elim (no_item h) [ ]
onto_first-append c (s ∷ ss) ts h = refl

split-append : (a b : Text) → split (a ++ (slash ∷ b)) ≡ split a ++ split b
unfolding split
split-append [] b = refl
split-append (c ∷ a) b = elim (Bool-cases (c == slash)) [
  | inl e ↦ rw e (ap (λ ss. [] ∷ ss) (split-append a b))
  | inr e ↦ rw e (
      ap (onto_first c) (split-append a b)
      ∙ onto_first-append c (split a) (split b) (length-split a))
]

no_slash :
    (c : ℕ) (s : Text)
    → has_code slash (c ∷ s) ≡ false
    → ((c == slash) ≡ false) × (has_code slash s ≡ false)
no_slash c s h = ground arith

split-name : (s : Text) → has_code slash s ≡ false → split s ≡ s ∷ []
unfolding split
split-name [] h = refl
split-name (c ∷ s) h = let (e, k) = no_slash c s h in rw (e, split-name s k) refl

module _ {A : Type 0} (x y : A) {t : Bool} where
  if_true : t ≡ true → (if t then x else y) ≡ x
  if_true h = rw h refl

  if_false : t ≡ false → (if t then x else y) ≡ y
  if_false h = rw h refl

bind_some :
    {A B : Type 0} (o : Option A) (k : A → Option B) {b : B}
    → Option.bind o k ≡ some b
    → (a : A) × (o ≡ some a) × (k a ≡ some b)
unfolding Option.bind
bind_some none k h = cc
bind_some (some a) k h = (a, refl, h)

module _ {V : Type 0} where
  follow-append :
      (ss ts : List Text) (n : Node V) → follow (ss ++ ts) n ≡ Option.bind (follow ss n) (follow ts)
  unfolding follow Option.bind
  follow-append [] ts n = refl
  follow-append (s ∷ ss) ts (node n v cs l) = bind_follow (first_named s cs) (follow-append ss ts)
    where
      bind_follow :
          (o : Option (Node V))
          → ((c : Node V) → follow (ss ++ ts) c ≡ Option.bind (follow ss c) (follow ts))
          → Option.bind o (follow (ss ++ ts)) ≡ Option.bind (Option.bind o (follow ss)) (follow ts)
      bind_follow none e = refl
      bind_follow (some c) e = e c

  -- The node at a path whose two parts are not empty is found from the node at the first part by
  -- the second part.
  get_node_from_path-append :
      (c d : ℕ) (a b : Text) (root : Node V)
      → get_node_from_path root ((c ∷ a) ++ (slash ∷ d ∷ b))
        ≡ Option.bind (get_node_from_path root (c ∷ a)) (λ n. get_node_from_path n (d ∷ b))
  unfolding get_node_from_path
  get_node_from_path-append c d a b root =
      ap (λ ss. follow ss root) (split-append (c ∷ a) (d ∷ b))
      ∙ follow-append (split (c ∷ a)) (split (d ∷ b)) root

  edit_first-first_named :
      (name : Text) (g : Node V → Result (Node V)) (cs : Children V) (c d : Node V)
      → first_named name cs ≡ some c
      → g c ≡ ok d
      → get_name d ≡ get_name c
      → (ds : Children V) × (edit_first name g cs ≡ ok ds) × (first_named name ds ≡ some d)
  edit_first-first_named name g nil c d h e k = cc
  edit_first-first_named name g (cons b cs) c d h e k =
      elim (Bool-cases (text_eq (get_name b) name)) [
        | inl t ↦
            let b≡c = some-injective b c (sym (if_true _ _ t) ∙ h) in
            (cons d cs, rw (t, ap g b≡c ∙ e) refl, rw (k ∙ ap get_name (sym b≡c), t) refl)
        | inr t ↦
            let (ds, l, m) = edit_first-first_named name g cs c d (sym (if_false _ _ t) ∙ h) e k in
            (cons b ds, rw (t, l) refl, rw t m)
      ]

  -- A change of the node at a list of names changes that node, if the change keeps its name.
  edit_at-follow :
      (f : Node V → Node V)
      → ((n : Node V) → get_name (f n) ≡ get_name n)
      → (names : List Text) (n m : Node V) → follow names n ≡ some m
      → (n' : Node V) × (edit_at names f n ≡ ok n')
        × (follow names n' ≡ some (f m))
        × (get_name n' ≡ get_name n)
  unfolding follow edit_at Option.bind
  edit_at-follow f keeps [] n m h =
      (f n, refl, ap (λ x. some (f x)) (some-injective n m h), keeps n)
  edit_at-follow f keeps (name ∷ names) (node n v cs l) m h =
      let (c, e, k) = bind_some (first_named name cs) (follow names) h in
      let (d, e₁, k₁, p) = edit_at-follow f keeps names c m k in
      let (ds, e₂, k₂) = edit_first-first_named name (edit_at names f) cs c d e e₁ p in
      (node n v ds l, rw e₂ refl, rw k₂ k₁, refl)

take-all : {A : Type 0} (xs ys : List A) → take (length xs) (xs ++ ys) ≡ xs
take-all [] ys = refl
take-all (x ∷ xs) ys = ap (λ zs. x ∷ zs) (take-all xs ys)

drop-all : {A : Type 0} (xs ys : List A) → drop (length xs) (xs ++ ys) ≡ ys
drop-all [] ys = refl
drop-all (x ∷ xs) ys = drop-all xs ys

has_code-append : (a b : Text) → has_code slash (a ++ (slash ∷ b)) ≡ true
has_code-append [] b = refl
has_code-append (c ∷ a) b = ground (arith, has_code-append a b)

module _ (a last : Text) (h : has_code slash last ≡ false) where
  split-last : split (a ++ (slash ∷ last)) ≡ split a ++ last ∷ []
  split-last = split-append a last ∙ ap (λ ss. split a ++ ss) (split-name last h)

  cut-last : cut (negsuc 0) (length (split (a ++ (slash ∷ last)))) ≡ length (split a)
  unfolding cut
  cut-last =
      ap (λ ss. length ss - 1) split-last ∙ (omega (length-append (split a) (last ∷ []), arith))

  path_head-last : path_head (a ++ (slash ∷ last)) (negsuc 0) ≡ a
  unfolding path_head
  path_head-last = rw (cut-last, split-last, take-all (split a) (last ∷ [])) (join-split a)

  path_tail-last : path_tail (a ++ (slash ∷ last)) (negsuc 0) ≡ last
  unfolding path_tail join
  path_tail-last = rw (cut-last, split-last, drop-all (split a) (last ∷ [])) refl

module _ {V : Type 0} (lib : Libraries V) (last : Text) (same : lib.fnmatch last last ≡ true) where
  other_name : (c : Node V) → match_name lib last c ≡ false → text_eq (get_name c) last ≡ false
  unfolding match_name
  other_name (node n v cs l) h = elim (Bool-cases (text_eq n last)) [
    | inr e ↦ e
    | inl e ↦
        let f : lib.fnmatch n last ≡ true =
          ap (λ t. lib.fnmatch t last) ((text_eq_iff n last).0 e) ∙ same in
        cc
  ]

  pruned_away : (cs : Children V) → first_named last (prune_each (match_name lib last) cs) ≡ none
  unfolding prune_each
  pruned_away nil = refl
  pruned_away (cons c cs) = elim (Bool-cases (match_name lib last c)) [
    | inl e ↦ rw e (pruned_away cs)
    | inr e ↦ rw (e, get_name-prune (match_name lib last) c, other_name c e) (pruned_away cs)
  ]
    where
      get_name-prune : (p : Node V → Bool) (b : Node V) → get_name (prune p b) ≡ get_name b
      get_name-prune p (node n v ds l) = refl

  get_name-rm : (n : Node V) → get_name (rm_nodes (match_name lib last) none n) ≡ get_name n
  unfolding prune
  get_name-rm (node n v cs l) = ap get_name (rm_nodes-prune (match_name lib last) (node n v cs l))

  nothing_below : (m : Node V) → follow (last ∷ []) (prune (match_name lib last) m) ≡ none
  unfolding follow prune_each Option.bind
  nothing_below (node n v cs l) = rw (pruned_away cs) refl

  -- Where a path of at least two names leads to a parent, and the last name matches itself as a
  -- pattern, `rm_node_from_path` succeeds. It takes away from that parent every node below it, at any
  -- depth, whose name matches the last name, and then nothing is left at the path.
  pub rm_node_from_path-prune :
      (c : ℕ) (a : Text) (root m : Node V)
      → has_code slash last ≡ false
      → get_node_from_path root (c ∷ a) ≡ some m
      → (root' : Node V) × (rm_node_from_path lib ((c ∷ a) ++ (slash ∷ last)) root ≡ ok root')
        × (get_node_from_path root' (c ∷ a) ≡ some (prune (match_name lib last) m))
        × (get_node_from_path root' ((c ∷ a) ++ (slash ∷ last)) ≡ none)
  unfolding rm_node_from_path get_node_from_path Option.bind
  rm_node_from_path-prune c a root m h e =
      let p = match_name lib last in
      let (r, k₁, k₂, k₃) = edit_at-follow (rm_nodes p none) get_name-rm (split (c ∷ a)) root m e in
      let found = k₂ ∙ ap some (rm_nodes-prune p m) in
      (
        r,
        rw
            (
              has_code-append (c ∷ a) last,
              path_head-last (c ∷ a) last h,
              path_tail-last (c ∷ a) last h,
            )
            k₁,
        found,
        ap (λ ss. follow ss r) (split-last (c ∷ a) last h)
            ∙ follow-append (split (c ∷ a)) (last ∷ []) r
            ∙ ap (λ o. Option.bind o (follow (last ∷ []))) found
            ∙ nothing_below m,
      )
