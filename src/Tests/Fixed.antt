-- ===== src/Tests/Fixed.antt =====
-- Numbers with three decimals in the place of `f64`, for the concrete inputs.
use Prim.Native.Char.{code}
use keck.Base.{
  ℕ, zero, suc, ◌+◌, ◌-◌, ◌*◌, ◌/◌, ◌^◌, min, ltb, leb, String, Option, none, some, if◌then◌else◌,
  ◌&&◌,
}
use keck.Base.Words.{u64_mod}
use keck.Base.Float.{Float64}

abbrev pub power : ℕ → ℕ → ℕ
power a zero = 1000
power a (suc n) = a * power a n / 1000

instance abbrev pub fixed : Float64 ℕ
fixed = record {
  lit = λ m d. m * 1000 / 10 ^ d;
  of_u64 = λ n. n * 1000;
  to_u64 = λ a. min (a / 1000) (u64_mod - 1);
  to_u32 = λ a. min (a / 1000) (2 ^ 32 - 1);
  add = λ a b. a + b;
  sub = λ a b. a - b;
  mul = λ a b. a * b / 1000;
  div = λ a b. a * 1000 / b;
  powi = power;
  sqrt = λ a. a;
  abs = λ a. a;
  infinity = 10 ^ 12;
  least = min;
  greatest = λ a b. if ltb a b then b else a;
  lt = ltb;
  le = leb;
}

-- Decimal digits, in the place of `str::parse`.
abbrev digits : String → ℕ → Option ℕ
digits String.[] n = some n
digits (String.◌∷◌ c s) n =
    if leb b'0' (code c) && leb (code c) b'9' then digits s (n * 10 + (code c - b'0')) else none

abbrev pub parse_fixed : String → Option ℕ
parse_fixed s = elim (digits s 0) [ none ↦ none | some n ↦ some (n * 1000) ]
