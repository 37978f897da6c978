-- ===== src/Sids/ElementLaws.antt =====
-- The numbers and the names of the element kinds determine one another.
use mathlib.Core.Option
use maia.Base.{
  ℕ, zero, suc, ◌≡◌, ◌↔◌, refl, ap, sym, ◌∙◌, List, [], ◌∷◌, Bool, true, false, some, if◌then◌else◌,
  map, get_elem?, Bool-cases, Option-cases, inl, inr, arith,
}
use maia.Base.{Text, text_eq, text_eq_iff, text_eq_self, text_mem}
use maia.Base.Result.{ok, both_ok}
use maia.Sids.Elements.{
  Element, elements_properties, property_of, element_name, index_of, cgns_name_to_id,
}

-- No text of the list occurs in it twice.
all_different : List Text → Bool
all_different [] = true
all_different (t ∷ ts) = if text_mem t ts then false else all_different ts

table_names : all_different (map (λ e. e.name) elements_properties) ≡ true
unfolding all_different elements_properties text_eq
table_names = refl

get_elem?-text_mem :
    (ts : List Text) (n : ℕ) {t : Text} → get_elem? ts n ≡ some t → text_mem t ts ≡ true
get_elem?-text_mem [] n h = ground arith
get_elem?-text_mem (s ∷ ts) zero {t} h = let e : s ≡ t = cc in rw (e, text_eq_self t) refl
get_elem?-text_mem (s ∷ ts) (suc n) h = ground (arith, get_elem?-text_mem ts n h)

index_of-get_elem? :
    (ts : List Text) (n : ℕ) {t : Text}
    → all_different ts ≡ true
    → get_elem? ts n ≡ some t
    → index_of t ts ≡ ok n
unfolding index_of all_different
index_of-get_elem? [] n d h = ground arith
index_of-get_elem? (s ∷ ts) zero {t} d h = let e : s ≡ t = cc in rw (e, text_eq_self t) refl
index_of-get_elem? (s ∷ ts) (suc n) {t} d h = elim (Bool-cases (text_eq s t)) [
  | inl e ↦
      let m : text_mem s ts ≡ true = rw ((text_eq_iff s t).0 e) (get_elem?-text_mem ts n h) in
      ground arith
  | inr e ↦
      let d' : all_different ts ≡ true = ground arith in rw (e, index_of-get_elem? ts n d' h) refl
]

get_elem?-index_of :
    (ts : List Text) (t : Text) {n : ℕ} → index_of t ts ≡ ok n → get_elem? ts n ≡ some t
unfolding index_of
get_elem?-index_of [] t h = ground arith
get_elem?-index_of (s ∷ ts) t {n} h = elim (Bool-cases (text_eq s t)) [
  | inl e ↦
      let z : 0 ≡ n = ground arith in
      ap (get_elem? (s ∷ ts)) (sym z) ∙ ap some ((text_eq_iff s t).0 e)
  | inr e ↦
      let (i, q, r) = both_ok _ (index_of t ts) (rw e at h) in
      let z : suc i ≡ n = cc in ap (get_elem? (s ∷ ts)) (sym z) ∙ get_elem?-index_of ts t q
]

get_elem?-map :
    {A B : Type 0} (f : A → B) (xs : List A) (n : ℕ)
    → get_elem? (map f xs) n ≡ Option.map f (get_elem? xs n)
get_elem?-map f [] n = refl
get_elem?-map f (x ∷ xs) zero = refl
get_elem?-map f (x ∷ xs) (suc n) = get_elem?-map f xs n

element_name_iff :
    (n : ℕ) (t : Text)
    → (element_name n ≡ ok t) ↔ (get_elem? (map (λ e. e.name) elements_properties) n ≡ some t)
unfolding element_name property_of
element_name_iff n t =
    let m = get_elem?-map (λ (e : Element). e.name) elements_properties n in
    elim (Option-cases (get_elem? elements_properties n)) [
      | inl h ↦ rw (m, h) (ground arith)
      | inr (e, h) ↦ rw (m, h) (ground arith)
    ]

-- `element_name` and `cgns_name_to_id` are inverse to one another: a number has a name exactly if
-- the name has that number.
pub element_name-cgns_name_to_id :
    (n : ℕ) (t : Text) → (element_name n ≡ ok t) ↔ (cgns_name_to_id t ≡ ok n)
unfolding cgns_name_to_id
element_name-cgns_name_to_id n t =
    let (f, g) = element_name_iff n t in
    (λ h. index_of-get_elem? _ n table_names (f h), λ h. g (get_elem?-index_of _ t h))
