-- ===== src/Controller/Api/Auth.antt =====
-- keck-controller/src/api/mod.rs: who may report.
use Prim.Native.String
use mathlib.Core.Logic.{◌↔◌}
use keck.Base.{
  ap, ◌≡◌, refl, sym, ◌∙◌, string_eq, String, true, false, Option, none, some, arith, inl, inr,
  Bool-cases, Option-cases, ◌≢◌,
}
use text.Mathlib.Text.{starts_with}
use text.Mathlib.TextPositions.{starts_with-append, slice-append_right, len-append}
use text.Mathlib.TextEquality.{starts_with_iff, eq_iff}
use keck.Base.Results.{is_ok}
use keck.Controller.Api.{check_auth, strip_prefix, bearer}

strip_prefix-append : (p s : String) → strip_prefix (String.◌++◌ p s) p ≡ some s
unfolding strip_prefix
strip_prefix-append p s = rw (starts_with-append p s, len-append p s, slice-append_right p s) refl

not_stripped : (t p s : String) → starts_with t p ≡ false → strip_prefix t p ≢ some s
unfolding strip_prefix
not_stripped t p s other h = ground arith

strip_prefix-some : (t p s : String) → strip_prefix t p ≡ some s → t ≡ String.◌++◌ p s
strip_prefix-some t p s h = elim (Bool-cases (starts_with t p)) [
  | inl starts ↦
      let (u, e) = (starts_with_iff t p).0 starts in
      let stripped : strip_prefix t p ≡ some u =
        ap (λ x. strip_prefix x p) (sym e) ∙ strip_prefix-append p u in
      let same : u ≡ s = cc in sym e ∙ ap (String.◌++◌ p) same
  | inr other ↦ absurd (not_stripped t p s other h)
]

check_auth_sound :
    (header : Option String) (key : String)
    → is_ok (check_auth header (some key)) ≡ true
    → header ≡ some (String.◌++◌ bearer key)
unfolding check_auth
check_auth_sound none key h = ground arith
check_auth_sound (some t) key h = elim (Option-cases (strip_prefix t bearer)) [
  | inl none_there ↦ ground (arith, none_there)
  | inr (token, stripped) ↦
      let same : token ≡ key = ground (arith, stripped, eq_iff token key) in
      ap {B = Option String} some
        (strip_prefix-some t bearer token stripped ∙ ap (String.◌++◌ bearer) same)
]

check_auth_complete :
    (key : String) → is_ok (check_auth (some (String.◌++◌ bearer key)) (some key)) ≡ true
unfolding check_auth
check_auth_complete key = rw (strip_prefix-append bearer key, (eq_iff key key).1 refl) refl

-- Where a key is configured, just the header of that key is let through, text for text.
pub check_auth_iff :
    (header : Option String) (key : String)
    → (is_ok (check_auth header (some key)) ≡ true) ↔ (header ≡ some (String.◌++◌ bearer key))
check_auth_iff header key = (
  check_auth_sound header key,
  λ e. ap (λ h. is_ok (check_auth h (some key))) e ∙ check_auth_complete key,
)

-- Who may send a report: everyone where no key is configured, else who sends the key's header.
abbrev pub IsAuthorized : Option String → Option String → Type 0
IsAuthorized header none = Unit
IsAuthorized header (some key) = header ≡ some (String.◌++◌ bearer key)

pub check_auth-IsAuthorized :
    (header key : Option String) → (is_ok (check_auth header key) ≡ true) ↔ IsAuthorized header key
unfolding check_auth
check_auth-IsAuthorized header none = (λ _. tt, λ _. refl)
check_auth-IsAuthorized header (some key) = check_auth_iff header key
