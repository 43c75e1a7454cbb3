-- ===== src/Fleet/Registry/History.antt =====
-- keck-fleet/src/registry/mod.rs: what the registry keeps of the reports that it was sent.
use keck.Base.{
  ℕ, ◌-◌, ◌*◌, ◌/◌, ◌≤◌, ◌≡◌, refl, sym, ap, ◌∙◌, String, string_eq, ◌==◌, Option, none, some, List,
  [], ◌∷◌, ◌++◌, map, filter, arith, inl, inr, Bool-cases,
}
use mathlib.Core.List.{append-nil, append_assoc}
use keck.Base.Maps.{get, get-insert}
use keck.Fleet.Registry.Types.{ClusterReport, ClusterState, ClusterRegistry}
use keck.Fleet.Registry.{new, ingest, with_report, since, second}

-- 30 days before.
abbrev pub cutoff : ℕ → ℕ
cutoff utc = utc - 86400 * 30 * second

-- A report with the clocks when it came.
pub record Arrival {ℓ} (F : Type ℓ) : Type ℓ where
  pub now : ℕ
  pub utc : ℕ
  pub report : ClusterReport F

module _ {ℓ} {F : Type ℓ} where
  abbrev pub ingest_all : List (Arrival F) → ClusterRegistry F → ClusterRegistry F
  ingest_all [] reg = reg
  ingest_all (a ∷ arrivals) reg = ingest_all arrivals (ingest a.now a.utc a.report reg)

  -- The wall clock does not go back, `utc` being its last reading.
  abbrev pub IsForward : ℕ → List (Arrival F) → Type 0
  IsForward utc [] = Unit
  IsForward utc (a ∷ arrivals) = (utc ≤ a.utc) × IsForward a.utc arrivals

  -- The reports of one cluster.
  abbrev pub reports_of : String → List (Arrival F) → List (Arrival F)
  reports_of id = filter λ a. a.report.cluster_id == id

  abbrev pub reading : Arrival F → ℕ × F
  reading a = (a.report.timestamp, a.report.power.total_watts)

  abbrev pub carbon_reading : Arrival F → ℕ × F
  carbon_reading a = (a.report.timestamp, a.report.carbon.emissions_grams_per_hour)

  abbrev pub last : Arrival F → List (Arrival F) → Arrival F
  last a [] = a
  last a (b ∷ bs) = last b bs

  -- The state after these reports, `z` being the latest.
  abbrev pub state_after : Arrival F → List (Arrival F) → ClusterState F
  state_after z arrivals = record {
    latest_report = z.report;
    received_at = z.now;
    power_history = since (cutoff z.utc) (map reading arrivals);
    carbon_history = since (cutoff z.utc) (map carbon_reading arrivals);
  }

  -- What a registry should know of a cluster that has sent these reports.
  abbrev pub known : List (Arrival F) → Option (ClusterState F)
  known [] = none
  known (a ∷ rest) = some (state_after (last a rest) (a ∷ rest))

  abbrev last_utc : List (Arrival F) → ℕ
  last_utc [] = 0
  last_utc (a ∷ rest) = (last a rest).utc

  last-append : (a b : Arrival F) (rest : List (Arrival F)) → last a (rest ++ b ∷ []) ≡ b
  last-append a b [] = refl
  last-append a b (c ∷ rest) = last-append c b rest

  since-since :
      (early late : ℕ) (xs ys : List (ℕ × F))
      → early ≤ late
      → since late (since early xs ++ ys) ≡ since late (xs ++ ys)
  since-since early late [] ys h = refl
  since-since early late (x ∷ xs) ys h = ground (arith, since-since early late xs ys h)

  map_snoc :
      (g : Arrival F → ℕ × F) (rest : List (Arrival F)) (b : Arrival F)
      → map g rest ++ g b ∷ [] ≡ map g (rest ++ b ∷ [])
  map_snoc g [] b = refl
  map_snoc g (a ∷ rest) b = ap (λ xs. g a ∷ xs) (map_snoc g rest b)

  with_report-known :
      (a : Arrival F) (before : List (Arrival F))
      → last_utc before ≤ a.utc
      → some (with_report a.now (cutoff a.utc) a.report (known before)) ≡ known (before ++ a ∷ [])
  unfolding with_report
  with_report-known a [] h = refl
  with_report-known a (b ∷ bs) h =
      let early : cutoff (last b bs).utc ≤ cutoff a.utc = omega arith in
      let power =
        since-since (cutoff (last b bs).utc) (cutoff a.utc) (map reading (b ∷ bs)) (reading a ∷ [])
          early
        ∙ ap (since (cutoff a.utc)) (map_snoc reading (b ∷ bs) a) in
      let carbon =
        since-since (cutoff (last b bs).utc) (cutoff a.utc) (map carbon_reading (b ∷ bs))
          (carbon_reading a ∷ []) early
        ∙ ap (since (cutoff a.utc)) (map_snoc carbon_reading (b ∷ bs) a) in
      (λ i. some (record {
        latest_report = a.report;
        received_at = a.now;
        power_history = power i;
        carbon_history = carbon i;
      }))
      ∙ ap {B = Option (ClusterState F)} (λ z. some (state_after z (b ∷ bs ++ a ∷ [])))
          (sym (last-append b a bs))

  get-ingest-known :
      (a : Arrival F) (reg : ClusterRegistry F) (id : String) (before : List (Arrival F))
      → reg.history_retention ≡ 86400 * 30 * second
      → last_utc before ≤ a.utc
      → get id reg.clusters ≡ known before
      → get id (ingest a.now a.utc a.report reg).clusters ≡ known (before ++ reports_of id (a ∷ []))
  unfolding ingest
  get-ingest-known a reg id before e h k =
      let id_of = a.report.cluster_id in
      let state = λ (n : ℕ) (o : Option (ClusterState F)).
        with_report a.now (a.utc - n / second * second) a.report o in
      let put =
        get-insert id_of id (state reg.history_retention (get id_of reg.clusters)) reg.clusters in
      elim (Bool-cases (id_of == id)) [
        | inl same ↦
            let old : get id_of reg.clusters ≡ known before =
              ap (λ i. get i reg.clusters) ((string_eq.beq_iff id_of id).0 same) ∙ k in
            rw (put, same) ((λ i. some (state (e i) (old i))) ∙ with_report-known a before h)
        | inr other ↦ rw (put, other) (k ∙ ap known (sym (append-nil before)))
      ]

  last_utc-append :
      (id : String) (a : Arrival F) (before : List (Arrival F))
      → last_utc before ≤ a.utc
      → last_utc (before ++ reports_of id (a ∷ [])) ≤ a.utc
  last_utc-append id a before h = elim (Bool-cases (a.report.cluster_id == id)) [
    | inl own ↦ rw own (ended before)
    | inr other ↦ rw (other, append-nil before) h
  ]
    where
      ended : (rest : List (Arrival F)) → last_utc (rest ++ a ∷ []) ≤ a.utc
      ended [] = omega arith
      ended (b ∷ rest) = omega (arith, ap (λ x. x.utc) (last-append b a rest))

  reports_of-cons :
      (id : String) (a : Arrival F) (arrivals : List (Arrival F))
      → reports_of id (a ∷ []) ++ reports_of id arrivals ≡ reports_of id (a ∷ arrivals)
  reports_of-cons id a arrivals = elim (Bool-cases (a.report.cluster_id == id)) [
    | inl own ↦ rw own refl
    | inr other ↦ rw other refl
  ]

  kept_retention :
      (a : Arrival F) (reg : ClusterRegistry F)
      → reg.history_retention ≡ 86400 * 30 * second
      → (ingest a.now a.utc a.report reg).history_retention ≡ 86400 * 30 * second
  unfolding ingest
  kept_retention a reg e = e

  get-ingest_all :
      (arrivals : List (Arrival F)) (reg : ClusterRegistry F) (id : String) (utc : ℕ)
      (before : List (Arrival F))
      → reg.history_retention ≡ 86400 * 30 * second
      → IsForward utc arrivals
      → last_utc before ≤ utc
      → get id reg.clusters ≡ known before
      → get id (ingest_all arrivals reg).clusters ≡ known (before ++ reports_of id arrivals)
  get-ingest_all [] reg id utc before e w h k = k ∙ ap known (sym (append-nil before))
  get-ingest_all (a ∷ arrivals) reg id utc before e w h k =
      let here = reports_of id (a ∷ []) in
      let earlier : last_utc before ≤ a.utc = omega (arith, w.0) in
      get-ingest_all arrivals (ingest a.now a.utc a.report reg) id a.utc (before ++ here)
        (kept_retention a reg e) w.1 (last_utc-append id a before earlier)
        (get-ingest-known a reg id before e earlier k)
      ∙ ap known (
          append_assoc before here (reports_of id arrivals)
          ∙ ap (λ xs. before ++ xs) (reports_of-cons id a arrivals))

  -- Whatever reports a new registry is sent, in whatever order, if the wall clock does not go back: it
  -- knows exactly the clusters that have sent one, and of each of them the latest report, when it came,
  -- and the powers and emissions of all of the cluster's reports in the order of their arrival, less
  -- those that were older than 30 days when the latest one came.
  pub get-ingest_all-new :
      (arrivals : List (Arrival F)) (id : String)
      → IsForward 0 arrivals
      → get id (ingest_all arrivals new).clusters ≡ known (reports_of id arrivals)
  unfolding new get
  get-ingest_all-new arrivals id w = get-ingest_all arrivals new id 0 [] refl w (omega arith) refl
