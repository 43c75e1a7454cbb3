-- ===== src/Controller/Kepler/Labels.antt =====
-- keck-controller/src/kepler_scraper.rs: the loop over the labels ends.
use keck.Base.{
  ℕ, zero, suc, ◌<◌, ◌≤◌, ◌≡◌, refl, String, string_eq, [], some, Option-cases, inl, inr, arith, ap,
  Bool-cases, unwrap_or,
}
use keck.Base.Text
use keck.Base.Text.{find, drop, take, starts_char}
use keck.Base.Text.Finding.{length-drop-le, length-drop-find}
use keck.Base.Maps.{Map, insert}
use keck.Controller.Kepler.{
  next_label, quoted, skip_comma, label_key, parse_labels_from, parse_labels,
}

skip_comma-le : (s : String) → Text.length (skip_comma s) ≤ Text.length s
skip_comma-le s = ground (arith, length-drop-le 1 s)

quoted-shorter :
    (key s k v r : String) → quoted key s ≡ some (k, v, r) → Text.length r < Text.length s
quoted-shorter key s k v r h = elim (Option-cases (find b'"' s)) [
  | inl e ↦ ground (arith, rw (e, quoted) at h)
  | inr (n, e) ↦
      let same : skip_comma (drop (suc n) s) ≡ r =
        ap (λ o. (unwrap_or {A = String × String × String} o (key, key, r)).2)
          (rw (e, quoted) at h) in
      omega
        (arith, ap Text.length same, skip_comma-le (drop (suc n) s), length-drop-find b'"' n s e)
]

-- Each round leaves less of the text.
pub next_label-shorter :
    (s k v r : String) → next_label s ≡ some (k, v, r) → Text.length r < Text.length s
unfolding next_label
next_label-shorter s k v r h = elim (Option-cases (find b'=' s)) [
  | inl e ↦ ground (arith, rw (e, next_label) at h)
  | inr (n, e) ↦ elim (Bool-cases (starts_char (drop (suc n) s) b'"')) [
    | inl opens ↦
        let q =
          quoted-shorter (label_key (take n s)) (drop 1 (drop (suc n) s)) k v r
            (rw (e, opens, next_label) at h) in
        omega (arith, q, length-drop-le 1 (drop (suc n) s), length-drop-find b'=' n s e)
    | inr plain ↦ ground (arith, rw (e, plain, next_label) at h)
  ]
]

pub parse_labels_from-some :
    (fuel : ℕ) (s : String) (m : Map String String)
    → Text.length s < fuel
    → (labels : Map String String) × (parse_labels_from fuel s m ≡ some labels)
unfolding parse_labels_from
parse_labels_from-some zero s m h = absurd (omega arith)
parse_labels_from-some (suc fuel) s m h = elim (Option-cases (next_label s)) [
  | inl e ↦ (m, rw (e, parse_labels_from) refl)
  | inr ((k, v, r), e) ↦
      let rest =
        parse_labels_from-some fuel r (insert k v m)
          (omega (arith, next_label-shorter s k v r e)) in
      (rest.0, rw (e, parse_labels_from) (rest.1))
]

-- The fuel of `parse_labels` is enough.
pub parse_labels-some : (s : String) → (labels : Map String String) × (parse_labels s ≡ some labels)
unfolding parse_labels
parse_labels-some s = parse_labels_from-some (suc (Text.length s)) s [] (omega arith)
