-- ===== src/Numbering/Int32.antt =====
-- Integers of 32 bits for the tests: they wrap around, but for a quotient, which is that of the bits.
use native.Mathlib.Nat.{mod-eq_of_lt}
use maia.Base.{ℕ, ◌+◌, ◌-◌, ◌*◌, ◌/◌, ◌%◌, ◌<◌, ◌≤◌, ◌≡◌, refl, leb, ltb, if◌then◌else◌, arith}
use maia.Base.Int.{pos, minus}
use maia.Numbering.Block.{Integers}

pub minus_exact : (a b : ℕ) → b ≤ a → (if leb b a then a - b else a + 4294967296 - b) ≡ a - b
minus_exact a b h = ground arith

pub value_exact :
    (a : ℕ) → a < 2147483648 → (if ltb a 2147483648 then pos a else minus a 4294967296) ≡ pos a
value_exact a h = ground arith

abbrev pub int32 : Integers
int32 = record {
  bound = 2147483648;
  plus = λ a b. (a + b) % 4294967296;
  minus = λ a b. if leb b a then a - b else a + 4294967296 - b;
  times = λ a b. (a * b) % 4294967296;
  over = λ a b. a / b;
  value = λ a. if ltb a 2147483648 then pos a else minus a 4294967296;
  plus_fits = λ a b h. mod-eq_of_lt (omega arith);
  minus_fits = λ a b h k. minus_exact a b h;
  times_fits = λ a b h. mod-eq_of_lt (omega arith);
  over_fits = λ a b h k l. refl;
  value_fits = λ a h. value_exact a h;
}
