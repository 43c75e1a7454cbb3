-- ===== src/Controller/Kepler/RoundTrip.antt =====
-- keck-controller/src/kepler_scraper.rs: the lines that Kepler prints, in the text format of
-- Prometheus, are read back.
use keck.Base.{
  ℕ, zero, suc, ◌<◌, ◌≤◌, ◌≡◌, ◌≢◌, ◌⊎◌, refl, sym, ap, ◌∙◌, String, string_eq, Bool, true, false,
  ◌||◌, none, some, List, [], ◌∷◌, ◌++◌, is_some, arith, eqb, All, inl, inr,
}
use mathlib.Core.Path.{subst}
use mathlib.Core.List.{append_assoc, append-nil}
use keck.Base.Keys.{Eq}
use keck.Base.Text
use keck.Base.Text.{
  all_chars, append, find, take, drop, slice, trim, trim_start, is_whitespace, within, starts_char,
}
use keck.Base.Text.Finding.{find-append, take-append, drop-append-suc}
use keck.Base.Text.Trimming.{
  AllChars, all_chars-AllChars, weaken-AllChars, find-none, trim_start-kept, IsSolid, trim-kept,
}
use keck.Base.Maps.{Map, get, insert, IsMap}
use keck.Controller.Kepler.{
  next_label, quoted, label_key, skip_comma, parse_labels_from, parse_labels,
}
use keck.Controller.Kepler.Labels.{next_label-shorter}

-- A map without a key, under an insertion at it.
module _ {ℓ κ} {K : Type ℓ} {V : Type κ} ⦃e : Eq K⦄ where
  insert_absent : (k : K) (v : V) (m : Map K V) → get k m ≡ none → insert k v m ≡ m ++ (k, v) ∷ []
  unfolding insert get
  insert_absent k v [] h = refl
  insert_absent k v ((j, w) ∷ m) h = ground (arith, insert_absent k v m)

  get-append_middle : (k : K) (v : V) (m n : Map K V) → is_some (get k (m ++ (k, v) ∷ n)) ≡ true
  unfolding get
  get-append_middle k v [] n = rw ((e.beq_iff k k).1 refl) refl
  get-append_middle k v ((j, w) ∷ m) n = ground (arith, get-append_middle k v m n)

  get-before : (k : K) (v : V) (m n : Map K V) → IsMap (m ++ (k, v) ∷ n) → get k m ≡ none
  unfolding get
  get-before k v [] n h = refl
  get-before k v ((j, w) ∷ m) n (h, hs) =
      ground (arith, e.beq_iff j k, get-before k v m n hs, get-append_middle k v m n)

-- `[a-zA-Z0-9_:]`
abbrev pub is_name : ℕ → Bool
is_name c =
    within b'a' b'z' c || within b'A' b'Z' c || within b'0' b'9' c || eqb c b'_' || eqb c b':'

abbrev pub IsName : String → Type 0
IsName s = all_chars is_name s ≡ true

-- Without quotes and closing braces.
abbrev pub IsPlain : String → Type 0
IsPlain v = (find b'"' v ≡ none) × (find b'}' v ≡ none)

abbrev pub IsLabel : String × String → Type 0
IsLabel l = IsName l.0 × IsPlain l.1

abbrev pub print_label : String × String → String → String
print_label (k, v) rest =
    append k (String.◌∷◌ "=" (String.◌∷◌ "\"" (append v (String.◌∷◌ "\"" rest))))

abbrev pub print_rest : List (String × String) → String
print_rest [] = ""
print_rest (l ∷ ls) = String.◌∷◌ "," (print_label l (print_rest ls))

abbrev pub print_labels : List (String × String) → String
print_labels [] = ""
print_labels (l ∷ ls) = print_label l (print_rest ls)

-- A line of a metric: its name, its labels in braces, and its value.
abbrev pub print_line : String → List (String × String) → String → String
print_line name ls value =
    append name (String.◌∷◌ "{" (append (print_labels ls) (String.◌∷◌ "}" (String.◌∷◌ " " value))))

name_bounds : (c : ℕ) → is_name c ≡ true → (48 ≤ c) × (c ≤ 122) × (c ≢ 61)
name_bounds c h = ground arith

name_not_blank : (c : ℕ) → is_name c ≡ true → is_whitespace c ≡ false
unfolding is_whitespace
name_not_blank c h = ground (arith, name_bounds c h)

name_without : (k c : ℕ) → (k < 48) ⊎ (122 < k) ⊎ (k ≡ 61) → is_name c ≡ true → eqb c k ≡ false
name_without k c o h = ground (arith, name_bounds c h)

module _ (s : String) (h : IsName s) where
  chars : AllChars (λ c. is_name c ≡ true) s
  chars = all_chars-AllChars is_name s h

  pub find-name : (k : ℕ) → (k < 48) ⊎ (122 < k) ⊎ (k ≡ 61) → find k s ≡ none
  find-name k o = find-none k s (weaken-AllChars _ _ s (λ c. name_without k c o) chars)

  IsName-IsSolid : IsSolid s
  IsName-IsSolid = weaken-AllChars _ _ s name_not_blank chars

  label_key-name : label_key s ≡ s
  label_key-name =
      let no_comma = weaken-AllChars _ _ s (λ c. name_without b',' c (inl (omega arith))) chars in
      let blank = trim-kept s IsName-IsSolid in
      ap (λ t. trim (trim_start (λ c. eqb c b',') t)) blank
      ∙ ap trim (trim_start-kept (λ c. eqb c b',') s no_comma)
      ∙ blank

quoted-print :
    (key v : String) (ls : List (String × String))
    → find b'"' v ≡ none
    → quoted key (append v (String.◌∷◌ "\"" (print_rest ls))) ≡ some (key, v, print_labels ls)
unfolding drop
quoted-print key v ls h =
    rw
      (
        find-append b'"' v "\"" (print_rest ls) h refl,
        take-append v (String.◌∷◌ "\"" (print_rest ls)),
        drop-append-suc v "\"" (print_rest ls),
        quoted,
      )
      (ap (λ r. some (key, v, r)) (skipped ls))
  where
    skipped : (ls : List (String × String)) → skip_comma (print_rest ls) ≡ print_labels ls
    skipped [] = refl
    skipped (l ∷ ls) = refl

next_label-print :
    (l : String × String) (ls : List (String × String))
    → IsLabel l
    → next_label (print_labels (l ∷ ls)) ≡ some (l.0, l.1, print_labels ls)
unfolding next_label drop
next_label-print (k, v) ls (n, p) =
    let behind = String.◌∷◌ "\"" (append v (String.◌∷◌ "\"" (print_rest ls))) in
    rw
      (
        find-append b'=' k "=" behind (find-name k n b'=' (inr (inr refl))) refl,
        take-append k (String.◌∷◌ "=" behind),
        drop-append-suc k "=" behind,
        label_key-name k n,
        next_label,
      )
      (quoted-print k v ls p.0)

parse_labels_from-print :
    (fuel : ℕ) (ls m : List (String × String))
    → Text.length (print_labels ls) < fuel
    → All IsLabel ls
    → IsMap (m ++ ls)
    → parse_labels_from fuel (print_labels ls) m ≡ some (m ++ ls)
unfolding parse_labels_from next_label find
parse_labels_from-print zero ls m f h d = absurd (omega arith)
parse_labels_from-print (suc fuel) [] m f h d = ap some (sym (append-nil m))
parse_labels_from-print (suc fuel) ((k, v) ∷ ls) m f (h, hs) d =
    let next = next_label-print (k, v) ls h in
    let less = next_label-shorter (print_labels ((k, v) ∷ ls)) k v (print_labels ls) next in
    let here = insert_absent k v m (get-before k v m ls d) in
    let same = append_assoc m ((k, v) ∷ []) ls in
    let rest =
      parse_labels_from-print fuel ls (m ++ (k, v) ∷ []) (omega (arith, less)) hs
        (subst IsMap (sym same) d) in
    rw (next, here, parse_labels_from) (rest ∙ ap some same)

-- Labels with distinct names are read back as they are.
pub parse_labels-print :
    (ls : List (String × String))
    → All IsLabel ls
    → IsMap ls
    → parse_labels (print_labels ls) ≡ some ls
unfolding parse_labels
parse_labels-print ls h d =
    parse_labels_from-print (suc (Text.length (print_labels ls))) ls [] (omega arith) h d
