-- ===== src/Controller/Kepler/Lines.antt =====
-- keck-controller/src/kepler_scraper.rs: a printed line is read back.
use keck.Base.{
  suc, ◌+◌, ◌-◌, ◌≡◌, refl, ap, String, string_eq, Option, none, some, List, [], ◌∷◌, arith, All,
  inl, inr, leb, true,
}
use keck.Base.Text
use keck.Base.Text.{append, find, take, drop, slice, trim, is_whitespace}
use keck.Base.Text.Finding.{
  find-append, find-append-none, find-append_behind, take-append, drop-append_behind,
}
use keck.Base.Text.Trimming.{IsSolid, trim-kept}
use keck.Base.Maps.{get, IsMap}
use keck.Controller.Kepler.{found, labels_and_watts, parse_pod_metric, PodKey}
use keck.Controller.Kepler.RoundTrip.{
  IsName, IsLabel, find-name, print_label, print_rest, print_labels, print_line, parse_labels-print,
}

-- No closing brace stands among the labels.
find-print_label :
    (l : String × String) (rest : String)
    → IsLabel l
    → find b'}' rest ≡ none
    → find b'}' (print_label l rest) ≡ none
unfolding find
find-print_label (k, v) rest (n, p) h =
    let tail = find-append-none b'}' v (String.◌∷◌ "\"" rest) p.1 (rw h refl) in
    find-append-none b'}' k _ (find-name k n b'}' (inr (inl (omega arith)))) (rw tail refl)

find-print_rest : (ls : List (String × String)) → All IsLabel ls → find b'}' (print_rest ls) ≡ none
unfolding find
find-print_rest [] h = refl
find-print_rest (l ∷ ls) (h, hs) =
    rw (find-print_label l (print_rest ls) h (find-print_rest ls hs)) refl

find-print_labels :
    (ls : List (String × String)) → All IsLabel ls → find b'}' (print_labels ls) ≡ none
unfolding find
find-print_labels [] h = refl
find-print_labels (l ∷ ls) (h, hs) = find-print_label l (print_rest ls) h (find-print_rest ls hs)

trim-blank : (v : String) → trim (String.◌∷◌ " " v) ≡ trim v
unfolding trim is_whitespace Text.trim_start
trim-blank v = refl

module _ (name : String) (ls : List (String × String)) (value : String) (n : IsName name)
    (h : All IsLabel ls) where
  closing :
      find b'}' (print_line name ls value)
      ≡ some (Text.length name + suc (Text.length (print_labels ls)))
  unfolding find
  closing =
      let inner =
        find-append b'}' (print_labels ls) "}" (String.◌∷◌ " " value) (find-print_labels ls h)
          refl in
      find-append_behind b'}' (suc (Text.length (print_labels ls))) name _
        (find-name name n b'}' (inr (inl (omega arith)))) (rw inner refl)

  opening : find b'{' (print_line name ls value) ≡ some (Text.length name)
  opening = find-append b'{' name "{" _ (find-name name n b'{' (inr (inl (omega arith)))) refl

  between :
      slice
        (suc (Text.length name))
        (Text.length name + suc (Text.length (print_labels ls)))
        (print_line name ls value)
      ≡ some (print_labels ls)
  unfolding slice drop
  between =
      let a = Text.length name in
      let b = Text.length (print_labels ls) in
      let inside : leb (suc a) (a + suc b) ≡ true = ground arith in
      let size : a + suc b - suc a ≡ b = omega arith in
      let cut =
        drop-append_behind (suc a) 1 name
          (String.◌∷◌ "{" (append (print_labels ls) (String.◌∷◌ "}" (String.◌∷◌ " " value))))
          (omega arith) in
      rw (inside, size, cut) (ap some (take-append (print_labels ls) _))

-- The labels that name a pod.
abbrev pub HasPod : PodKey → List (String × String) → Type 0
HasPod key ls =
    (get "pod_id" ls ≡ some key.pod_id)
    × (get "pod_name" ls ≡ some key.pod_name)
    × (get "pod_namespace" ls ≡ some key.pod_namespace)
    × (get "node_name" ls ≡ some key.node_name)
    × (get "state" ls ≡ some key.state)

module _ {ℓ} {F : Type ℓ} (parse_f64 : String → Option F) (name : String)
    (ls : List (String × String)) (value : String) (watts : F) where
  labels_and_watts-print :
      IsName name
      → All IsLabel ls
      → IsMap ls
      → IsSolid value
      → parse_f64 value ≡ some watts
      → labels_and_watts parse_f64 (print_line name ls value) ≡ found (ls, watts)
  unfolding labels_and_watts drop
  labels_and_watts-print n h d s p =
      let a = Text.length name in
      let b = Text.length (print_labels ls) in
      let last =
        drop-append_behind (suc (a + suc b)) (suc (suc b)) name
          (String.◌∷◌ "{" (append (print_labels ls) (String.◌∷◌ "}" (String.◌∷◌ " " value))))
          (omega arith) in
      let tail =
        drop-append_behind (suc b) 1 (print_labels ls) (String.◌∷◌ "}" (String.◌∷◌ " " value))
          (omega arith) in
      rw
        (
          opening name ls value n h,
          closing name ls value n h,
          between name ls value n h,
          last,
          tail,
          trim-blank value,
          trim-kept value s,
          p,
          parse_labels-print ls h d,
        )
        refl

  -- A line with the name of a metric, labels that have distinct names and name a pod, in any order and
  -- among others, and a value is read as this pod with the number that the value stands for. Names are
  -- made of letters, digits, `_` and `:`, the labels' values have no quotes and closing braces, and the
  -- value has no blanks.
  pub parse_pod_metric-print :
      (key : PodKey)
      → IsName name
      → All IsLabel ls
      → IsMap ls
      → IsSolid value
      → parse_f64 value ≡ some watts
      → HasPod key ls
      → parse_pod_metric parse_f64 (print_line name ls value) ≡ found (key, watts)
  unfolding parse_pod_metric
  parse_pod_metric-print key n h d s p (i, j, k, l, m) =
      rw (labels_and_watts-print n h d s p, i, j, k, l, m) refl
