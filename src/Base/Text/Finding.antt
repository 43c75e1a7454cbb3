-- ===== src/Base/Text/Finding.antt =====
-- Where `find` finds a character, and what is cut there.
use Prim.Native.Nat.{ℕ, zero, suc, ◌+◌, ◌≤◌, ◌<◌}
use Prim.Native.Char.{Char, code}
use Prim.Native.String.{String}
use mathlib.Core.Path.{◌≡◌, refl, ap}
use mathlib.Core.Bool.{true}
use mathlib.Core.Option.{none, some}
use native.Mathlib.Omega.{arith}
use keck.Base.Text.{length, append, find, take, drop, starts_with}

-- The character stands at some position of the text.
pub find-lt-length : (k n : ℕ) (s : String) → find k s ≡ some n → n < length s
unfolding find
find-lt-length k n String.[] h = ground (arith)
find-lt-length k zero (String.◌∷◌ c s) h = omega arith
find-lt-length k (suc n) (String.◌∷◌ c s) h = ground (arith, find-lt-length k n s)

pub length-drop : (n : ℕ) (s : String) → n ≤ length s → length (drop n s) + n ≡ length s
unfolding drop
length-drop zero s h = omega arith
length-drop (suc n) String.[] h = absurd (omega arith)
length-drop (suc n) (String.◌∷◌ c s) h = omega (arith, length-drop n s (omega arith))

pub length-drop-le : (n : ℕ) (s : String) → length (drop n s) ≤ length s
unfolding drop
length-drop-le zero s = omega arith
length-drop-le (suc n) String.[] = omega arith
length-drop-le (suc n) (String.◌∷◌ c s) = omega (arith, length-drop-le n s)

-- What stands behind a character is shorter.
pub length-drop-find :
    (k n : ℕ) (s : String) → find k s ≡ some n → length (drop (suc n) s) < length s
unfolding drop
length-drop-find k n s h =
    omega (arith, find-lt-length k n s h, length-drop (suc n) s (find-lt-length k n s h))

-- A text starts with the characters of its prefix.
pub find-starts_with :
    (k n : ℕ) (s p : String) → starts_with s p ≡ true → find k p ≡ some n → find k s ≡ some n
unfolding find starts_with
find-starts_with k n s String.[] h q = ground arith
find-starts_with k n String.[] (String.◌∷◌ d p) h q = ground arith
find-starts_with k zero (String.◌∷◌ c s) (String.◌∷◌ d p) h q = ground arith
find-starts_with k (suc n) (String.◌∷◌ c s) (String.◌∷◌ d p) h q =
    ground (arith, find-starts_with k n s p)

-- A character that its prefix does not have stands behind it.
pub find_behind :
    (k n : ℕ) (s p : String)
    → starts_with s p ≡ true
    → find k p ≡ none
    → find k s ≡ some n
    → length p ≤ n
unfolding find starts_with
find_behind k n s String.[] h q r = omega arith
find_behind k n String.[] (String.◌∷◌ d p) h q r = ground arith
find_behind k zero (String.◌∷◌ c s) (String.◌∷◌ d p) h q r = ground arith
find_behind k (suc n) (String.◌∷◌ c s) (String.◌∷◌ d p) h q r = ground (arith, find_behind k n s p)

-- The first occurrence in a text made of parts.
pub find-append :
    (k : ℕ) (s : String) (c : Char) (t : String)
    → find k s ≡ none
    → code c ≡ k
    → find k (append s (String.◌∷◌ c t)) ≡ some (length s)
unfolding find
find-append k String.[] c t h q = ground arith
find-append k (String.◌∷◌ d s) c t h q = ground (arith, find-append k s c t)

pub find-append-none :
    (k : ℕ) (s t : String) → find k s ≡ none → find k t ≡ none → find k (append s t) ≡ none
unfolding find
find-append-none k String.[] t h q = q
find-append-none k (String.◌∷◌ d s) t h q = ground (arith, find-append-none k s t)

pub take-append : (s t : String) → take (length s) (append s t) ≡ s
unfolding take
take-append String.[] t = refl
take-append (String.◌∷◌ c s) t = ap (String.◌∷◌ c) (take-append s t)

pub drop-append : (s t : String) → drop (length s) (append s t) ≡ t
unfolding drop
drop-append String.[] t = refl
drop-append (String.◌∷◌ c s) t = drop-append s t

-- `&s[i + 1..]` behind a character.
pub drop-append-suc :
    (s : String) (c : Char) (t : String) → drop (suc (length s)) (append s (String.◌∷◌ c t)) ≡ t
unfolding drop
drop-append-suc String.[] c t = refl
drop-append-suc (String.◌∷◌ d s) c t = drop-append-suc s c t

-- Positions behind a first part.
pub find-append_behind :
    (k n : ℕ) (s t : String)
    → find k s ≡ none
    → find k t ≡ some n
    → find k (append s t) ≡ some (length s + n)
unfolding find
find-append_behind k n String.[] t h q = rw q (ap some (omega arith))
find-append_behind k n (String.◌∷◌ c s) t h q = ground (arith, find-append_behind k n s t)

pub drop-append_behind :
    (m n : ℕ) (s t : String) → m ≡ length s + n → drop m (append s t) ≡ drop n t
unfolding drop
drop-append_behind m n String.[] t h = ap (λ i. drop i t) (omega (arith, h))
drop-append_behind zero n (String.◌∷◌ c s) t h = absurd (omega arith)
drop-append_behind (suc m) n (String.◌∷◌ c s) t h = drop-append_behind m n s t (omega arith)
