-- ===== src/Base/Result.antt =====
-- Python's exceptions as results. The texts of the messages are not kept.
use mathlib.Core.Path.{◌≡◌, refl}
use mathlib.Core.Logic.{◌⊎◌, inl, inr}
use mathlib.Core.Bool.{Bool, true, false}

pub data Error : Type 0 where
  value_error type_error runtime_error index_error key_error assertion_error overflow_error
        zero_division_error node_not_found label_not_equal attribute_error stop_iteration :
      Error

-- What a call gives: a value, or the exception that it raised.
pub data Result {ℓ} (A : Type ℓ) : Type ℓ where
  raised : Error → Result A
  ok : A → Result A

-- `except Exception: return old`
abbrev pub ok_or {ℓ} : {A : Type ℓ} → A → Result A → A
ok_or old (raised e) = old
ok_or old (ok a) = a

pub Result-cases {ℓ} :
    {A : Type ℓ} (m : Result A) → ((a : A) × (m ≡ ok a)) ⊎ ((e : Error) × (m ≡ raised e))
Result-cases (raised e) = inr (e, refl)
Result-cases (ok a) = inl (a, refl)

-- The statements after a call run if it raises nothing.
infixl 5 ◌>>=◌ ◌>>◌
abbrev pub ◌>>=◌ : {A B : Type 0} → Result A → (A → Result B) → Result B
raised e >>= next = raised e
ok a >>= next = next a

-- `assert test`
abbrev pub assert : Bool → Result (Unit {0})
assert false = raised assertion_error
assert true = ok tt

abbrev pub ◌>>◌ : {B : Type 0} → Result (Unit {0}) → Result B → Result B
raised e >> next = raised e
ok u >> next = next

module _ {A B : Type 0} (next : A → Result B) {b : B} where
  -- If all went well, the call and what came after it went well.
  pub both_ok :
      (call : Result A) → (call >>= next) ≡ ok b → (a : A) × (call ≡ ok a) × (next a ≡ ok b)
  both_ok (raised e) h = cc
  both_ok (ok a) h = (a, refl, h)
