-- ===== src/Base/Words.antt =====
-- `u64`, `usize` and `i64` arithmetic. Release builds wrap around, so each operation is written with
-- its modulus; an `i64` is kept as its two's complement bit pattern.
use Prim.Native.Nat.{ℕ, ◌+◌, ◌-◌, ◌%◌, ◌^◌, ◌≤◌, ◌<◌}
use mathlib.Core.Path.{◌≡◌, refl}
use mathlib.Core.List.{List, [], ◌∷◌, ◌++◌}
use native.Mathlib.Omega.{arith}
use keck.Base.Tests.{ltb, if◌then◌else◌}

abbrev pub u64_mod : ℕ
u64_mod = 2 ^ 64

unfoldable pub add_u64 : ℕ → ℕ → ℕ
add_u64 a b = (a + b) % u64_mod

unfoldable pub sub_u64 : ℕ → ℕ → ℕ
sub_u64 a b = (a % u64_mod + (u64_mod - b % u64_mod)) % u64_mod

-- `as u64` of a `u128`
unfoldable pub cast_u64 : ℕ → ℕ
cast_u64 a = a % u64_mod

-- `i64::unsigned_abs` of a bit pattern
unfoldable pub unsigned_abs : ℕ → ℕ
unsigned_abs a = if ltb a (2 ^ 63) then a else u64_mod - a

-- `iter().sum::<u64>()`
unfoldable pub sum_u64 : List ℕ → ℕ
sum_u64 [] = 0
sum_u64 (x ∷ xs) = add_u64 x (sum_u64 xs)

-- The sum without wrap-around, for statements.
unfoldable pub sum : List ℕ → ℕ
sum [] = 0
sum (x ∷ xs) = x + sum xs

pub add_u64-lt : (a b : ℕ) → add_u64 a b < u64_mod
unfolding add_u64
add_u64-lt a b = omega arith

pub add_u64_exact : (a b : ℕ) → a + b < u64_mod → add_u64 a b ≡ a + b
unfolding add_u64
add_u64_exact a b h = omega arith

pub add_u64_mod : (a b : ℕ) → add_u64 a b ≡ (a + b) % u64_mod
unfolding add_u64
add_u64_mod a b = refl

pub add_u64_assoc : (a b c : ℕ) → add_u64 (add_u64 a b) c ≡ add_u64 a (add_u64 b c)
unfolding add_u64
add_u64_assoc a b c = omega arith

pub add_u64_left_comm : (a b c : ℕ) → add_u64 a (add_u64 b c) ≡ add_u64 b (add_u64 a c)
unfolding add_u64
add_u64_left_comm a b c = omega arith

pub sum_u64-lt : (xs : List ℕ) → sum_u64 xs < u64_mod
unfolding sum_u64
sum_u64-lt [] = omega arith
sum_u64-lt (x ∷ xs) = add_u64-lt x (sum_u64 xs)

pub sum_u64-eq-sum : (xs : List ℕ) → sum_u64 xs ≡ sum xs % u64_mod
unfolding sum_u64 sum add_u64
sum_u64-eq-sum [] = omega arith
sum_u64-eq-sum (x ∷ xs) = omega (arith, sum_u64-eq-sum xs)

pub sum_u64_exact : (xs : List ℕ) → sum xs < u64_mod → sum_u64 xs ≡ sum xs
sum_u64_exact xs h = omega (arith, sum_u64-eq-sum xs)

pub sum-append : (xs ys : List ℕ) → sum (xs ++ ys) ≡ sum xs + sum ys
unfolding sum
sum-append [] ys = omega arith
sum-append (x ∷ xs) ys = omega (arith, sum-append xs ys)

pub sum_u64-append : (xs ys : List ℕ) → sum_u64 (xs ++ ys) ≡ add_u64 (sum_u64 xs) (sum_u64 ys)
unfolding add_u64
sum_u64-append xs ys =
    omega (arith, sum_u64-eq-sum (xs ++ ys), sum-append xs ys, sum_u64-eq-sum xs, sum_u64-eq-sum ys)

pub sub_u64_exact : (a b : ℕ) → a < u64_mod → b ≤ a → sub_u64 a b ≡ a - b
unfolding sub_u64
sub_u64_exact a b h k = omega arith

-- The distance of two numbers of at most 63 bits comes back from the signed difference.
pub unsigned_abs-sub :
    (a b : ℕ) → a < 2 ^ 63 → b < 2 ^ 63 → unsigned_abs (sub_u64 a b) ≡ (a - b) + (b - a)
unfolding unsigned_abs sub_u64
unsigned_abs-sub a b h k = ground arith
