-- ===== src/Agent/Store/Queries.antt =====
-- keck-agent/src/store/mod.rs: the queries read the rings backwards and stop at the first old entry.
use mathlib.Core.List.{flat_map}
use keck.Base.{
  ℕ, ◌≤◌, ◌≡◌, refl, false, inl, inr, ◌==◌, string_eq, String, List, [], ◌∷◌, arith, reverse, leb,
  Bool-cases, filter, take_while, All,
}
use keck.Base.Sorting.{IsDescending}
use keck.Agent.Store.{LocalStore, query_pod_processes, query_namespace_pods, processes_of_pod}

module _ {ℓ} {A : Type ℓ} (key : A → ℕ) where
  filter_none :
      (since : ℕ) (bound : ℕ) (xs : List A)
      → All (λ y. key y ≤ bound) xs
      → leb since bound ≡ false
      → filter (λ x. leb since (key x)) xs ≡ []
  filter_none since bound [] a h = refl
  filter_none since bound (x ∷ xs) a h = ground (arith, filter_none since bound xs a.1 h)

  take_while-eq-filter :
      (since : ℕ) (xs : List A)
      → IsDescending key xs
      → take_while (λ x. leb since (key x)) xs ≡ filter (λ x. leb since (key x)) xs
  take_while-eq-filter since [] d = refl
  take_while-eq-filter since (x ∷ xs) d = elim (Bool-cases (leb since (key x))) [
    | inl recent ↦ rw (recent, take_while-eq-filter since xs d.1)
    | inr old ↦ rw (old, filter_none since (key x) xs d.0 old)
  ]

module _ {ℓ} {F : Type ℓ} where
  -- If the entries of a ring were stamped in the order in which they stand, a query returns just
  -- the matches among all entries that are not older than `since`, the newest first.
  pub query_complete :
      (s : LocalStore F) (name : String) (since : ℕ)
      → IsDescending (λ x. x.timestamp) (reverse s.detail_ring)
      → IsDescending (λ x. x.timestamp) (reverse s.summary_ring)
      → (query_pod_processes name since s
          ≡ flat_map
              (processes_of_pod name)
              (filter (λ x. leb since x.timestamp) (reverse s.detail_ring)))
        × (query_namespace_pods name since s
            ≡ filter
                (λ x. x.namespace == name)
                (filter (λ x. leb since x.timestamp) (reverse s.summary_ring)))
  unfolding query_pod_processes query_namespace_pods
  query_complete s name since d e = (
    rw (take_while-eq-filter (λ x. x.timestamp) since (reverse s.detail_ring) d),
    rw (take_while-eq-filter (λ x. x.timestamp) since (reverse s.summary_ring) e),
  )
