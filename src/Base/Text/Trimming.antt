-- ===== src/Base/Text/Trimming.antt =====
-- Texts all of whose characters pass a test, and what trimming leaves of them.
use Prim.Native.Nat.{ℕ}
use Prim.Native.Char.{code}
use Prim.Native.String.{String}
use mathlib.Core.Path.{◌≡◌, refl, ap, ◌∙◌}
use mathlib.Core.Bool.{Bool, true, false}
use mathlib.Core.Option.{none}
use native.Mathlib.Omega.{arith}
use keck.Base.Tests.{eqb}
use keck.Base.Text.{all_chars, find, trim, trim_start, trim_end, is_whitespace}

abbrev pub AllChars : (ℕ → Type 0) → String → Type 0
AllChars P String.[] = Unit
AllChars P (String.◌∷◌ c s) = P (code c) × AllChars P s

pub all_chars-AllChars :
    (p : ℕ → Bool) (s : String) → all_chars p s ≡ true → AllChars (λ c. p c ≡ true) s
all_chars-AllChars p String.[] h = tt
all_chars-AllChars p (String.◌∷◌ c s) h = (ground arith, all_chars-AllChars p s (ground arith))

pub weaken-AllChars :
    (P Q : ℕ → Type 0) (s : String) → ((c : ℕ) → P c → Q c) → AllChars P s → AllChars Q s
weaken-AllChars P Q String.[] f h = tt
weaken-AllChars P Q (String.◌∷◌ c s) f (h, hs) = (f (code c) h, weaken-AllChars P Q s f hs)

pub find-none : (k : ℕ) (s : String) → AllChars (λ c. eqb c k ≡ false) s → find k s ≡ none
unfolding find
find-none k String.[] h = refl
find-none k (String.◌∷◌ c s) (h, hs) = ground (arith, find-none k s hs)

module _ (p : ℕ → Bool) where
  pub trim_start-kept : (s : String) → AllChars (λ c. p c ≡ false) s → trim_start p s ≡ s
  unfolding trim_start
  trim_start-kept String.[] h = refl
  trim_start-kept (String.◌∷◌ c s) (h, hs) = rw h refl

  pub trim_end-kept : (s : String) → AllChars (λ c. p c ≡ false) s → trim_end p s ≡ s
  unfolding trim_end
  trim_end-kept String.[] h = refl
  trim_end-kept (String.◌∷◌ c String.[]) (h, hs) = rw h refl
  trim_end-kept (String.◌∷◌ c (String.◌∷◌ d s)) (h, hs) =
      rw (trim_end-kept (String.◌∷◌ d s) hs) refl

abbrev pub IsSolid : String → Type 0
IsSolid = AllChars λ c. is_whitespace c ≡ false

pub trim-kept : (s : String) → IsSolid s → trim s ≡ s
unfolding trim
trim-kept s h =
    ap (trim_end is_whitespace) (trim_start-kept is_whitespace s h)
    ∙ trim_end-kept is_whitespace s h
