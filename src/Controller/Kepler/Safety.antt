-- ===== src/Controller/Kepler/Safety.antt =====
-- keck-controller/src/kepler_scraper.rs: no page makes the scraper panic or loop.
use keck.Base.{
  ℕ, suc, ◌-◌, ◌≤◌, ◌≡◌, refl, String, string_eq, ◌==◌, Bool, true, false, ◌||◌, Option, none, some,
  List, [], ◌∷◌, Option-cases, inl, inr, arith, if◌then◌else◌, is_some, leb, unwrap_or,
}
use keck.Base.Text
use keck.Base.Text.{find, slice, starts_with, lines}
use keck.Base.Text.Finding.{find-starts_with, find_behind}
use keck.Base.Words.{add_u64}
use keck.Base.Maps.{get}
use keck.Base.Float.{Float64}
use keck.Controller.Aggregator.Types.{ClusterAggregator}
use keck.Controller.Kepler.{
  Parsed, panicked, absent, found, ◌>>=◌, asked, demanded, if_found, labels_and_watts, parse_labels,
  parse_pod_metric, parse_node_metric, Readings, read_line, read_lines, read_page, no_readings,
  PodKey,
}
use keck.Controller.Kepler.Labels.{parse_labels-some}
use keck.Controller.Kepler.Scrape.{Clocks, scrape_and_ingest, scrape_round}

abbrev IsSafe {ℓ} : {A : Type ℓ} → Parsed A → Type 0
IsSafe panicked = ⊥
IsSafe absent = Unit
IsSafe (found a) = Unit

>>=-IsSafe {ℓ κ} :
    {A : Type ℓ} {B : Type κ} (m : Parsed A) (k : A → Parsed B)
    → IsSafe m
    → ((a : A) → IsSafe (k a))
    → IsSafe (m >>= k)
>>=-IsSafe panicked k h g = h
>>=-IsSafe absent k h g = tt
>>=-IsSafe (found a) k h g = g a

asked-IsSafe {ℓ κ} :
    {A : Type ℓ} {B : Type κ} (o : Option A) (k : A → Parsed B)
    → ((a : A) → IsSafe (k a))
    → IsSafe (asked o >>= k)
asked-IsSafe none k g = tt
asked-IsSafe (some a) k g = g a

-- A name of a metric with its opening brace, and no closing one.
abbrev IsOpening : String → ℕ → Type 0
IsOpening p n = (find b'{' p ≡ some n) × (find b'}' p ≡ none) × (Text.length p ≡ suc n)

slice-IsSafe : (i j : ℕ) (s : String) → i ≤ j → (t : String) × (slice i j s ≡ some t)
unfolding slice
slice-IsSafe i j s h =
    let test : leb i j ≡ true = ground arith in
    (Text.take (j - i) (Text.drop i s), rw (test, slice) refl)

module _ {ℓ} {F : Type ℓ} (parse_f64 : String → Option F) where
  labels_and_watts-IsSafe :
      (line p : String) (n : ℕ)
      → starts_with line p ≡ true
      → IsOpening p n
      → IsSafe (labels_and_watts parse_f64 line)
  unfolding labels_and_watts
  labels_and_watts-IsSafe line p n h (o, c, l) = elim (Option-cases (find b'}' line)) [
    | inl e ↦ rw (find-starts_with b'{' n line p h o, e) tt
    | inr (j, e) ↦
        let cut = slice-IsSafe (suc n) j line (omega (arith, find_behind b'}' j line p h c e)) in
        let labels = parse_labels-some cut.0 in
        rw (find-starts_with b'{' n line p h o, e, cut.1)
          (asked-IsSafe (parse_f64 (Text.trim (Text.drop (suc j) line)))
            (λ w. demanded (parse_labels cut.0) >>= λ ls. found (ls, w)) (λ w. rw (labels.1) tt))
  ]

  module _ (line p : String) (n : ℕ) (h : starts_with line p ≡ true) (o : IsOpening p n) where
    pod_metric-IsSafe : IsSafe (parse_pod_metric parse_f64 line)
    unfolding parse_pod_metric
    pod_metric-IsSafe =
        >>=-IsSafe (labels_and_watts parse_f64 line) _ (labels_and_watts-IsSafe line p n h o) (λ m.
          asked-IsSafe (get "pod_id" m.0) _ λ _. asked-IsSafe (get "pod_name" m.0) _ λ _.
            asked-IsSafe (get "pod_namespace" m.0) _ λ _.
              asked-IsSafe (get "node_name" m.0) _ λ _. asked-IsSafe (get "state" m.0) _ λ _. tt)

    node_metric-IsSafe : IsSafe (parse_node_metric parse_f64 line)
    unfolding parse_node_metric
    node_metric-IsSafe =
        >>=-IsSafe (labels_and_watts parse_f64 line) _ (labels_and_watts-IsSafe line p n h o)
          (λ m. asked-IsSafe (get "node_name" m.0) _ λ _. tt)

if_found-some {ℓ κ} :
    {A : Type ℓ} {B : Type κ} (x : Parsed A) (k : A → B → B) (b : B)
    → IsSafe x
    → is_some (if_found x k b) ≡ true
if_found-some panicked k b h = absurd h
if_found-some absent k b h = refl
if_found-some (found a) k b h = refl

-- A guarded step.
if_some {ℓ} :
    {B : Type ℓ} (t : Bool) (x y : Option B)
    → (t ≡ true → is_some x ≡ true)
    → is_some y ≡ true
    → is_some (if t then x else y) ≡ true
if_some true x y h k = h refl
if_some false x y h k = k

module _ {ℓ} {F : Type ℓ} ⦃f : Float64 F⦄ (parse_f64 : String → Option F) where
  module _ (line : String) (p : String) (n : ℕ) (o : IsOpening p n) where
    pod_line :
        (k : PodKey × F → Readings F → Readings F) (t : Readings F)
        → starts_with line p ≡ true
        → is_some (if_found (parse_pod_metric parse_f64 line) k t) ≡ true
    pod_line k t h = if_found-some _ k t (pod_metric-IsSafe parse_f64 line p n h o)

    node_line :
        (k : String × F → Readings F → Readings F) (t : Readings F)
        → starts_with line p ≡ true
        → is_some (if_found (parse_node_metric parse_f64 line) k t) ≡ true
    node_line k t h = if_found-some _ k t (node_metric-IsSafe parse_f64 line p n h o)

  read_line-some : (line : String) (t : Readings F) → is_some (read_line parse_f64 line t) ≡ true
  unfolding read_line find
  read_line-some line t =
      if_some (Text.starts_char line b'#' || (line == "")) _ _ (λ _. refl)
        (if_some (starts_with line "kepler_pod_cpu_watts{") _ _
          (pod_line line "kepler_pod_cpu_watts{" 20 (refl, refl, refl) _ t)
          (if_some (starts_with line "kepler_pod_gpu_watts{") _ _
            (pod_line line "kepler_pod_gpu_watts{" 20 (refl, refl, refl) _ t)
            (if_some (starts_with line "kepler_node_cpu_watts{") _ _
              (node_line line "kepler_node_cpu_watts{" 21 (refl, refl, refl) _ t)
              (if_some (starts_with line "kepler_node_cpu_idle_watts{") _ _
                (node_line line "kepler_node_cpu_idle_watts{" 26 (refl, refl, refl) _ t)
                (if_some (starts_with line "kepler_node_gpu_watts{") _ _
                  (node_line line "kepler_node_gpu_watts{" 21 (refl, refl, refl) _ t)
                  (if_some (starts_with line "kepler_platform_watts{") _ _
                    (node_line line "kepler_platform_watts{" 21 (refl, refl, refl) _ t) refl))))))

  read_lines-some : (ls : List String) (t : Readings F) → is_some (read_lines parse_f64 ls t) ≡ true
  unfolding read_lines
  read_lines-some [] t = refl
  read_lines-some (l ∷ ls) t = elim (Option-cases (read_line parse_f64 l t)) [
    | inl e ↦ ground (arith, read_line-some l t)
    | inr (u, e) ↦ rw (e, read_lines) (read_lines-some ls u)
  ]

  scrape_and_ingest-some :
      (clocks : Clocks) (answer : Option String) (agg : ClusterAggregator F)
      → is_some (scrape_and_ingest parse_f64 clocks answer agg) ≡ true
  unfolding scrape_and_ingest read_page
  scrape_and_ingest-some clocks none agg = refl
  scrape_and_ingest-some clocks (some body) agg = elim (Option-cases (read_page parse_f64 body)) [
    | inl e ↦ ground (arith, read_lines-some (lines body) no_readings)
    | inr (t, e) ↦ rw (e, scrape_and_ingest) refl
  ]

  -- Whatever the addresses answer, a round of the scraper ends, with a state and a count: no text makes
  -- its loops run on or cuts a line outside of its bounds.
  pub scrape_round_total :
      (clocks : String → Clocks) (fetch : String → Option String) (ips : List String)
      (agg : ClusterAggregator F) (total : ℕ)
      → (next : ClusterAggregator F × ℕ) × (scrape_round parse_f64 clocks fetch ips (agg, total)
          ≡ some next)
  unfolding scrape_round
  scrape_round_total clocks fetch [] agg total = ((agg, total), refl)
  scrape_round_total clocks fetch (ip ∷ ips) agg total =
      elim (Option-cases (scrape_and_ingest parse_f64 (clocks ip) (fetch ip) agg)) [
        | inl e ↦ ground (arith, scrape_and_ingest-some (clocks ip) (fetch ip) agg)
        | inr ((next, count), e) ↦
            let rest =
              scrape_round_total clocks fetch ips next (add_u64 total (unwrap_or count 0)) in
            (rest.0, rw (e, scrape_round) (rest.1))
      ]
