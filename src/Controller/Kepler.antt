-- ===== src/Controller/Kepler.antt =====
-- keck-controller/src/kepler_scraper.rs: reading the labels and values of Kepler's text, and what a
-- page adds up to. `parse_f64` is `str::parse::<f64>`.
pub mod Labels
pub mod Scrape
pub mod Safety
pub mod RoundTrip
pub mod Lines
use keck.Base.{
  ℕ, zero, suc, ◌+◌, String, string_eq, ◌==◌, Bool, true, false, not, ◌&&◌, ◌||◌, Option, none,
  some, List, [], ◌∷◌, ◌++◌, map, if◌then◌else◌, unwrap_or, ◌≡◌, ◌↔◌, refl, arith, length, ltb, eqb,
}
use keck.Base.Keys.{Eq}
use keck.Base.Text
use keck.Base.Text.{find, drop, take, slice, trim, trim_start, starts_with, starts_char, lines}
use keck.Base.Float.{Float64}
use keck.Base.Maps.{Map, get, insert, upsert}

-- A panic, `None`, or `Some`.
pub data Parsed {ℓ} (A : Type ℓ) : Type ℓ where
  panicked : Parsed A
  absent : Parsed A
  found : A → Parsed A

infixl 5 ◌>>=◌
abbrev pub ◌>>=◌ {ℓ κ} : {A : Type ℓ} {B : Type κ} → Parsed A → (A → Parsed B) → Parsed B
panicked >>= k = panicked
absent >>= k = absent
found a >>= k = k a

-- `o?`
abbrev pub asked {ℓ} : {A : Type ℓ} → Option A → Parsed A
asked none = absent
asked (some a) = found a

-- A step that panics where it has no result.
abbrev pub demanded {ℓ} : {A : Type ℓ} → Option A → Parsed A
demanded none = panicked
demanded (some a) = found a

pub record PodKey : Type 0 where
  pub pod_id : String
  pub pod_name : String
  pub pod_namespace : String
  pub node_name : String
  pub state : String

abbrev pub pod_key_beq : PodKey → PodKey → Bool
pod_key_beq a b =
    (a.pod_id == b.pod_id)
    && (a.pod_name == b.pod_name)
    && (a.pod_namespace == b.pod_namespace)
    && (a.node_name == b.node_name)
    && (a.state == b.state)

pub pod_key_beq_iff : (a b : PodKey) → (pod_key_beq a b ≡ true) ↔ (a ≡ b)
pod_key_beq_iff a b = ground (
  arith,
  string_eq.beq_iff a.pod_id b.pod_id,
  string_eq.beq_iff a.pod_name b.pod_name,
  string_eq.beq_iff a.pod_namespace b.pod_namespace,
  string_eq.beq_iff a.node_name b.node_name,
  string_eq.beq_iff a.state b.state,
)

instance abbrev pub pod_key_eq : Eq PodKey
pod_key_eq = record { beq = pod_key_beq; beq_iff = pod_key_beq_iff }

pub record PodAccum {ℓ} (F : Type ℓ) : Type ℓ where
  pub cpu_watts : F
  pub gpu_watts : F

-- `trim().trim_start_matches(',').trim()`
abbrev pub label_key : String → String
label_key s = trim (trim_start (λ c. eqb c b',') (trim s))

abbrev pub skip_comma : String → String
skip_comma s = if starts_char s b',' then drop 1 s else s

-- The value in quotes, and what follows it.
abbrev pub quoted : String → String → Option (String × String × String)
quoted key s = elim (find b'"' s) [
  | none ↦ none
  | some end_quote ↦ some (key, take end_quote s, skip_comma (drop (suc end_quote) s))
]

-- One round of the loop of `parse_labels`: a label's key and value, and what remains; `none` where
-- the loop ends.
unfoldable pub next_label : String → Option (String × String × String)
next_label s = elim (find b'=' s) [
  | none ↦ none
  | some eq ↦
      let rest = drop (suc eq) s in
      if starts_char rest b'"' then quoted (label_key (take eq s)) (drop 1 rest) else none
]

unfoldable pub parse_labels_from : ℕ → String → Map String String → Option (Map String String)
parse_labels_from zero s m = none
parse_labels_from (suc fuel) s m = elim (next_label s) [
  | none ↦ some m
  | some (key, value, rest) ↦ parse_labels_from fuel rest (insert key value m)
]

unfoldable pub parse_labels : String → Option (Map String String)
parse_labels s = parse_labels_from (suc (Text.length s)) s []

module _ {ℓ} {F : Type ℓ} (parse_f64 : String → Option F) where
  -- What `parse_pod_metric` and `parse_node_metric` begin with.
  unfoldable pub labels_and_watts : String → Parsed (Map String String × F)
  labels_and_watts line = do
    brace_start ← asked (find b'{' line)
    brace_end ← asked (find b'}' line)
    labels_str ← demanded (slice (suc brace_start) brace_end line)
    watts ← asked (parse_f64 (trim (drop (suc brace_end) line)))
    labels ← demanded (parse_labels labels_str)
    found (labels, watts)

  unfoldable pub parse_pod_metric : String → Parsed (PodKey × F)
  parse_pod_metric line = do
    metric ← labels_and_watts line
    pod_id ← asked (get "pod_id" metric.0)
    pod_name ← asked (get "pod_name" metric.0)
    pod_namespace ← asked (get "pod_namespace" metric.0)
    node_name ← asked (get "node_name" metric.0)
    state ← asked (get "state" metric.0)
    found (
      record {
        pod_id = pod_id;
        pod_name = pod_name;
        pod_namespace = pod_namespace;
        node_name = node_name;
        state = state;
      },
      metric.1,
    )

  unfoldable pub parse_node_metric : String → Parsed (String × F)
  parse_node_metric line = do
    metric ← labels_and_watts line
    node ← asked (get "node_name" metric.0)
    found (node, metric.1)

-- The maps of `scrape_and_ingest`.
pub record Readings {ℓ} (F : Type ℓ) : Type ℓ where
  pub pod_data : Map PodKey (PodAccum F)
  pub node_cpu_watts : Map String F
  pub node_gpu_watts : Map String F
  pub node_idle_watts : Map String F
  pub node_platform_watts : Map String F

abbrev pub no_readings {ℓ} : {F : Type ℓ} → Readings F
no_readings = record {
  pod_data = [];
  node_cpu_watts = [];
  node_gpu_watts = [];
  node_idle_watts = [];
  node_platform_watts = [];
}

-- The body of `if let Some(…) = …`; a panic is `none`.
abbrev pub if_found {ℓ κ} : {A : Type ℓ} {B : Type κ} → Parsed A → (A → B → B) → B → Option B
if_found panicked k b = none
if_found absent k b = some b
if_found (found a) k b = some (k a b)

module _ {ℓ} {F : Type ℓ} ⦃f : Float64 F⦄ (parse_f64 : String → Option F) where
  abbrev pub add_pod : (F → PodAccum F → PodAccum F) → PodKey × F → Readings F → Readings F
  add_pod add (key, watts) t = if not (key.state == "running") then t else record t {
    pod_data =
        upsert key (record { cpu_watts = f.lit 0 0; gpu_watts = f.lit 0 0 }) (add watts) t.pod_data;
  }

  abbrev pub add_cpu : F → PodAccum F → PodAccum F
  add_cpu w a = record a { cpu_watts = f.add a.cpu_watts w }

  abbrev pub add_gpu : F → PodAccum F → PodAccum F
  add_gpu w a = record a { gpu_watts = f.add a.gpu_watts w }

  abbrev pub add_watts : String × F → Map String F → Map String F
  add_watts (node, watts) = upsert node (f.lit 0 0) (λ w. f.add w watts)

  -- The body of the loop over the lines.
  unfoldable pub read_line : String → Readings F → Option (Readings F)
  read_line line t =
      if starts_char line b'#' || (line == "")
      then some t
      else if starts_with line "kepler_pod_cpu_watts{"
      then if_found (parse_pod_metric parse_f64 line) (add_pod add_cpu) t
      else if starts_with line "kepler_pod_gpu_watts{"
      then if_found (parse_pod_metric parse_f64 line) (add_pod add_gpu) t
      else if starts_with line "kepler_node_cpu_watts{"
      then if_found (parse_node_metric parse_f64 line)
          (λ x u. record u { node_cpu_watts = add_watts x u.node_cpu_watts }) t
      else if starts_with line "kepler_node_cpu_idle_watts{"
      then if_found (parse_node_metric parse_f64 line)
          (λ x u. record u { node_idle_watts = add_watts x u.node_idle_watts }) t
      else if starts_with line "kepler_node_gpu_watts{"
      then if_found (parse_node_metric parse_f64 line)
          (λ x u. record u { node_gpu_watts = add_watts x u.node_gpu_watts }) t
      else if starts_with line "kepler_platform_watts{"
      then if_found (parse_node_metric parse_f64 line)
          (λ x u. record u { node_platform_watts = add_watts x u.node_platform_watts }) t
      else some t

  unfoldable pub read_lines : List String → Readings F → Option (Readings F)
  read_lines [] t = some t
  read_lines (l ∷ ls) t = elim (read_line l t) [ none ↦ none | some u ↦ read_lines ls u ]

  -- The readings of a page.
  unfoldable pub read_page : String → Option (Readings F)
  read_page body = read_lines (lines body) no_readings
