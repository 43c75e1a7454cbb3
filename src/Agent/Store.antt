-- ===== src/Agent/Store.antt =====
-- keck-agent/src/store/mod.rs: the bounded rings of snapshots and pod summaries, and the outbox.
-- The front of a `VecDeque` is the head of the list. `Instant::now()`, which each summary calls, is
-- the argument `clock`: its reading at the n-th call.
pub mod History
pub mod Outbox
pub mod Queries
use mathlib.Core.List.{flat_map}
use keck.Base.{
  ℕ, suc, ◌+◌, ◌*◌, ◌≡◌, ◌==◌, string_eq, String, Bool, List, [], ◌∷◌, ◌++◌, map, reverse, Option,
  none, some, if◌then◌else◌, leb, length, take, take_while, filter,
}
use keck.Agent.Attribution.Types.{PodPower, ProcessPower, Reconciliation, AttributionSnapshot}
use keck.Agent.Attribution.Types

pub record PodSummary : Type 0 where
  pub timestamp : ℕ
  pub pod_uid : String
  pub name : String
  pub namespace : String
  pub cpu_uw : ℕ
  pub memory_uw : ℕ
  pub gpu_uw : ℕ
  pub total_uw : ℕ

-- `PodSummary::from`
unfoldable pub summary_of : PodPower → ℕ → PodSummary
summary_of pod now = record {
  timestamp = now;
  pod_uid = pod.pod_uid;
  name = pod.name;
  namespace = pod.namespace;
  cpu_uw = pod.power.cpu_uw;
  memory_uw = pod.power.memory_uw;
  gpu_uw = pod.power.gpu_uw;
  total_uw = Types.total_uw pod.power;
}

unfoldable pub summaries_of : (ℕ → ℕ) → ℕ → List PodPower → List PodSummary
summaries_of clock n [] = []
summaries_of clock n (p ∷ ps) = summary_of p (clock n) ∷ summaries_of clock (suc n) ps

pub data StoreProfile : Type 0 where
  minimal standard full : (detail_capacity summary_capacity : ℕ) → StoreProfile

abbrev pub minimal_profile : StoreProfile
minimal_profile = minimal 100 5000

abbrev pub standard_profile : StoreProfile
standard_profile = standard 500 50000

abbrev pub full_profile : StoreProfile
full_profile = full 2000 100000

abbrev pub detail_capacity : StoreProfile → ℕ
detail_capacity (minimal d s) = d
detail_capacity (standard d s) = d
detail_capacity (full d s) = d

abbrev pub summary_capacity : StoreProfile → ℕ
summary_capacity (minimal d s) = s
summary_capacity (standard d s) = s
summary_capacity (full d s) = s

pub record LocalStore {ℓ} (F : Type ℓ) : Type ℓ where
  pub detail_ring : List (AttributionSnapshot F)
  pub summary_ring : List PodSummary
  pub outbox : List PodSummary
  pub profile : StoreProfile

module _ {ℓ} {A : Type ℓ} where
  -- `pop_front`, on an empty ring without effect
  abbrev pub pop_front : List A → List A
  pop_front [] = []
  pop_front (x ∷ xs) = xs

  -- The oldest entry makes room, if the ring is full.
  unfoldable pub push_bounded : ℕ → List A → A → List A
  push_bounded cap ring x = (if leb cap (length ring) then pop_front ring else ring) ++ x ∷ []

  -- `push_front` of each item, the last one first.
  push_front_all : List A → List A → List A
  push_front_all [] out = out
  push_front_all (x ∷ xs) out = push_front_all xs (x ∷ out)

  -- `back`
  abbrev pub back : List A → Option A
  back [] = none
  back (x ∷ []) = some x
  back (x ∷ y ∷ xs) = back (y ∷ xs)

module _ {ℓ} {F : Type ℓ} where
  unfoldable pub new : StoreProfile → LocalStore F
  new p = record { detail_ring = []; summary_ring = []; outbox = []; profile = p }

  -- The loop of `push` over the summaries.
  unfoldable pub push_summaries : List PodSummary → LocalStore F → LocalStore F
  push_summaries [] s = s
  push_summaries (x ∷ xs) s = push_summaries xs (record s {
    outbox = s.outbox ++ x ∷ [];
    summary_ring = push_bounded (summary_capacity s.profile) s.summary_ring x;
  })

  unfoldable pub push : (ℕ → ℕ) → AttributionSnapshot F → LocalStore F → LocalStore F
  push clock snapshot s =
      push_summaries (summaries_of clock 0 snapshot.pods)
        (record s { detail_ring = push_bounded (detail_capacity s.profile) s.detail_ring snapshot })

  unfoldable pub latest : LocalStore F → Option (AttributionSnapshot F)
  latest s = back s.detail_ring

  pub processes_of_pod : String → AttributionSnapshot F → List ProcessPower
  processes_of_pod uid s =
      flat_map (λ c. c.processes)
        (flat_map (λ p. p.containers) (filter (λ p. p.pod_uid == uid) s.pods))

  unfoldable pub query_pod_processes : String → ℕ → LocalStore F → List ProcessPower
  unfolding processes_of_pod
  query_pod_processes uid since s =
      flat_map (processes_of_pod uid)
        (take_while (λ x. leb since x.timestamp) (reverse s.detail_ring))

  unfoldable pub query_namespace_pods : String → ℕ → LocalStore F → List PodSummary
  query_namespace_pods ns since s =
      filter (λ x. x.namespace == ns)
        (take_while (λ x. leb since x.timestamp) (reverse s.summary_ring))

  unfoldable pub reconciliation_history : ℕ → LocalStore F → List (Reconciliation F)
  reconciliation_history count s = map (λ x. x.reconciliation) (take count (reverse s.detail_ring))

  unfoldable pub drain_outbox : LocalStore F → List PodSummary × LocalStore F
  drain_outbox s = (s.outbox, record s { outbox = [] })

  unfoldable pub requeue : List PodSummary → LocalStore F → LocalStore F
  unfolding push_front_all
  requeue xs s = record s { outbox = push_front_all (reverse xs) s.outbox }

  unfoldable pub estimated_memory : LocalStore F → ℕ
  estimated_memory s =
      length s.detail_ring * 4096 + length s.summary_ring * 128 + length s.outbox * 128
