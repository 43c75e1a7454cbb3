-- ===== src/Base/Text.antt =====
-- `str` as a list of characters: the methods by which the program reads text. A position counts
-- characters; the program cuts only at positions that `find` gave.
pub mod Finding
pub mod Trimming
use Prim.Native.Nat.{ℕ, zero, suc, ◌+◌, ◌-◌, ◌*◌, ◌^◌}
use Prim.Native.Char.{Char, code}
use Prim.Native.String.{String}
use mathlib.Core.Bool.{Bool, true, false, not, ◌&&◌, ◌||◌}
use mathlib.Core.List.{List, [], ◌∷◌}
use mathlib.Core.Option.{Option, none, some}
use keck.Base.Tests.{eqb, leb, ltb, if◌then◌else◌}

abbrev pub length : String → ℕ
length String.[] = 0
length (String.◌∷◌ c s) = suc (length s)

abbrev pub append : String → String → String
append String.[] t = t
append (String.◌∷◌ c s) t = String.◌∷◌ c (append s t)

abbrev pub shifted : Option ℕ → Option ℕ
shifted none = none
shifted (some n) = some (suc n)

-- `find(c)` for a character
unfoldable pub find : ℕ → String → Option ℕ
find k String.[] = none
find k (String.◌∷◌ c s) = if eqb (code c) k then some 0 else shifted (find k s)

-- `&s[..n]`
unfoldable pub take : ℕ → String → String
take zero s = String.[]
take (suc n) String.[] = String.[]
take (suc n) (String.◌∷◌ c s) = String.◌∷◌ c (take n s)

-- `&s[n..]`
unfoldable pub drop : ℕ → String → String
drop zero s = s
drop (suc n) String.[] = String.[]
drop (suc n) (String.◌∷◌ c s) = drop n s

-- `&s[i..j]`, which panics if the end stands before the start.
unfoldable pub slice : ℕ → ℕ → String → Option String
slice i j s = if leb i j then some (take (j - i) (drop i s)) else none

-- `starts_with`
unfoldable pub starts_with : String → String → Bool
starts_with s String.[] = true
starts_with String.[] (String.◌∷◌ d p) = false
starts_with (String.◌∷◌ c s) (String.◌∷◌ d p) = eqb (code c) (code d) && starts_with s p

-- `starts_with(c)` for a character
abbrev pub starts_char : String → ℕ → Bool
starts_char String.[] k = false
starts_char (String.◌∷◌ c s) k = eqb (code c) k

abbrev pub within : ℕ → ℕ → ℕ → Bool
within lo hi c = leb lo c && leb c hi

-- `char::is_whitespace`
unfoldable pub is_whitespace : ℕ → Bool
is_whitespace c =
    within 9 13 c
    || eqb c 32
    || eqb c 0x85
    || eqb c 0xA0
    || eqb c 0x1680
    || within 0x2000 0x200A c
    || within 0x2028 0x2029 c
    || eqb c 0x202F
    || eqb c 0x205F
    || eqb c 0x3000

-- `trim_start_matches(p)`
unfoldable pub trim_start : (ℕ → Bool) → String → String
trim_start p String.[] = String.[]
trim_start p (String.◌∷◌ c s) = if p (code c) then trim_start p s else String.◌∷◌ c s

abbrev keep_end : (ℕ → Bool) → Char → String → String
keep_end p c String.[] = if p (code c) then String.[] else String.◌∷◌ c String.[]
keep_end p c (String.◌∷◌ d s) = String.◌∷◌ c (String.◌∷◌ d s)

-- `trim_end_matches(p)`
unfoldable pub trim_end : (ℕ → Bool) → String → String
trim_end p String.[] = String.[]
trim_end p (String.◌∷◌ c s) = keep_end p c (trim_end p s)

-- `trim`
unfoldable pub trim : String → String
unfolding is_whitespace trim_start trim_end
trim s = trim_end is_whitespace (trim_start is_whitespace s)

abbrev push_front : Char → List String → List String
push_front c [] = String.◌∷◌ c String.[] ∷ []
push_front c (l ∷ ls) = String.◌∷◌ c l ∷ ls

-- `lines`: a line ends at \n or \r\n.
unfoldable pub lines : String → List String
lines String.[] = []
lines (String.◌∷◌ c s) =
    let rest = lines s in
    if eqb (code c) b'\n'
    then String.[] ∷ rest
    else if eqb (code c) b'\r' && starts_char s b'\n'
    then rest
    else push_front c rest

-- `chars().take_while(p).collect()`
unfoldable pub take_while : (ℕ → Bool) → String → String
take_while p String.[] = String.[]
take_while p (String.◌∷◌ c s) = if p (code c) then String.◌∷◌ c (take_while p s) else String.[]

-- `chars().all(p)`
abbrev pub all_chars : (ℕ → Bool) → String → Bool
all_chars p String.[] = true
all_chars p (String.◌∷◌ c s) = p (code c) && all_chars p s

abbrev begins_word : String → Bool
begins_word String.[] = false
begins_word (String.◌∷◌ c s) = not (is_whitespace (code c))

-- `split_whitespace`
unfoldable pub words : String → List String
words String.[] = []
words (String.◌∷◌ c s) =
    let rest = words s in
    if is_whitespace (code c)
    then rest
    else if begins_word s
    then push_front c rest
    else String.◌∷◌ c String.[] ∷ rest

-- `rsplit_once(c)`, the part behind
unfoldable pub after_last : ℕ → String → Option String
after_last k String.[] = none
after_last k (String.◌∷◌ c s) = elim (after_last k s) [
  | some t ↦ some t
  | none ↦ if eqb (code c) k then some s else none
]

-- What follows the first occurrence of a text, by `find` and a slice.
unfoldable pub behind : String → String → Option String
behind p String.[] = if starts_with String.[] p then some String.[] else none
behind p (String.◌∷◌ c s) =
    if starts_with (String.◌∷◌ c s) p then some (drop (length p) (String.◌∷◌ c s)) else behind p s

-- `replace(c, …)` by one character
unfoldable pub replace : ℕ → Char → String → String
replace k d String.[] = String.[]
replace k d (String.◌∷◌ c s) = String.◌∷◌ (if eqb (code c) k then d else c) (replace k d s)

abbrev pub is_digit : ℕ → Bool
is_digit = within b'0' b'9'

-- `is_ascii_alphanumeric`
abbrev pub is_alphanumeric : ℕ → Bool
is_alphanumeric c = is_digit c || within b'a' b'z' c || within b'A' b'Z' c

unfoldable pub digits : ℕ → String → Option ℕ
digits n String.[] = some n
digits n (String.◌∷◌ c s) =
    let rest = digits (n * 10 + (code c - b'0')) s in if is_digit (code c) then rest else none

abbrev below : ℕ → Option ℕ → Option ℕ
below bound none = none
below bound (some n) = if ltb n bound then some n else none

-- Digits, at least one of them.
abbrev some_digits : ℕ → String → Option ℕ
some_digits bound String.[] = none
some_digits bound (String.◌∷◌ c s) = below bound (digits 0 (String.◌∷◌ c s))

-- `parse` for unsigned integers below a bound, with at most a plus sign in front
unfoldable pub parse_unsigned : ℕ → String → Option ℕ
unfolding digits
parse_unsigned bound s =
    if starts_char s b'+' then some_digits bound (drop 1 s) else some_digits bound s

abbrev pub parse_u64 : String → Option ℕ
parse_u64 = parse_unsigned (2 ^ 64)

abbrev pub parse_u32 : String → Option ℕ
parse_u32 = parse_unsigned (2 ^ 32)
