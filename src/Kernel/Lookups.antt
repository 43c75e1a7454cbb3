-- ===== src/Kernel/Lookups.antt =====
-- keck-ebpf/src/main.rs and keck-agent/src/ebpf/mod.rs: the entries of a map after one operation on it.
use keck.Base.{
  ℕ, suc, ◌+◌, ◌≤◌, ◌<◌, ◌≡◌, refl, sym, ap, ◌∙◌, ◌==◌, Eq, Option, none, some, Option-cases, inl,
  inr, List, [], ◌∷◌, map, filter, length, if◌then◌else◌, arith, Bool-cases,
}
use keck.Base.Words.{u64_mod, add_u64, sum}
use keck.Base.Maps.{keys}
use keck.Kernel.{PidCpuTime, accumulate, add_time}
use keck.Kernel.Maps.{BpfMaps, LawfulMaps, entries_of}
use keck.Agent.Ebpf.{drained, remove_all}

abbrev pub time_or_0 : Option PidCpuTime → ℕ
time_or_0 none = 0
time_or_0 (some v) = v.time_ns

-- The time of one key in the entries of a list.
abbrev pub time_in : {K : Type 0} ⦃e : Eq K⦄ → K → List (K × PidCpuTime) → ℕ
time_in k xs = sum (map (λ x. x.1.time_ns) (filter (λ x. x.0 == k) xs))

module _ {M : Type 0 → Type 0 → Type 0} ⦃b : BpfMaps M⦄ (l : LawfulMaps M) {K : Type 0}
    ⦃e : Eq K⦄ where
  time_in-entries_of :
      (k : K) (o : Option PidCpuTime) → sum (map (λ x. x.1.time_ns) (entries_of k o)) ≡ time_or_0 o
  unfolding sum
  time_in-entries_of k none = refl
  time_in-entries_of k (some v) = omega arith

  pub time_in-iter : (k : K) (m : M K PidCpuTime) → time_in k (b.iter m) ≡ time_or_0 (b.lookup k m)
  time_in-iter k m =
      ap (λ xs. sum (map (λ x. x.1.time_ns) xs)) (l.iter_lem k m)
      ∙ time_in-entries_of k (b.lookup k m)

  module _ {V : Type 0} (max : ℕ) (k : K) (d : V) (f : V → V) (m : M K V) where
    accumulate-present :
        (j : K) (v : V)
        → b.lookup k m ≡ some v
        → b.lookup j (accumulate M max k d f m) ≡ (if k == j then some (f v) else b.lookup j m)
    accumulate-present j v h = rw (h, accumulate) (l.write_lem k j v (f v) m h)

    accumulate-absent : b.lookup k m ≡ none → accumulate M max k d f m ≡ b.insert max k d m
    accumulate-absent h = rw (h, accumulate) refl

    pub accumulate-count : length (b.iter (accumulate M max k d f m)) ≤ suc (length (b.iter m))
    accumulate-count = elim (Option-cases (b.lookup k m)) [
      | inl h ↦ rw (accumulate-absent h) (l.insert_count max k d m)
      | inr (v, h) ↦ rw (h, accumulate) (omega (arith, l.write_count k v (f v) m h))
    ]

  -- The time of a key that the map had, and the time that it has after an entry for another.
  time_found :
      (k j : K) (v : PidCpuTime) (elapsed : ℕ) (o : Option PidCpuTime)
      → (k ≡ j → o ≡ some v)
      → time_or_0 (if k == j then some (add_time elapsed v) else o)
        ≤ time_or_0 o + (if k == j then elapsed else 0)
  unfolding add_u64
  time_found k j v elapsed o h = elim (Bool-cases (k == j)) [
    | inl same ↦ rw (same, h ((e.beq_iff k j).0 same)) (omega arith)
    | inr other ↦ rw other (omega arith)
  ]

  time_found_exact :
      (k j : K) (v : PidCpuTime) (elapsed : ℕ) (o : Option PidCpuTime)
      → (k ≡ j → o ≡ some v)
      → time_or_0 o + (if k == j then elapsed else 0) < u64_mod
      → time_or_0 (if k == j then some (add_time elapsed v) else o)
        ≡ time_or_0 o + (if k == j then elapsed else 0)
  unfolding add_u64
  time_found_exact k j v elapsed o h small = elim (Bool-cases (k == j)) [
    | inl same ↦
        let found : o ≡ some v = h ((e.beq_iff k j).0 same) in
        let bound : v.time_ns + elapsed < u64_mod = ground (arith, same, found, small) in
        rw (same, found) (omega arith)
    | inr other ↦ rw other (omega arith)
  ]

  time_entered :
      (k j : K) (elapsed : ℕ) (o : Option PidCpuTime)
      → time_or_0 (if k == j then some (record { time_ns = elapsed }) else o)
        ≤ time_or_0 o + (if k == j then elapsed else 0)
  time_entered k j elapsed o = ground arith

  time_entered_exact :
      (k j : K) (elapsed : ℕ) (o : Option PidCpuTime)
      → (k ≡ j → o ≡ none)
      → time_or_0 (if k == j then some (record { time_ns = elapsed }) else o)
        ≡ time_or_0 o + (if k == j then elapsed else 0)
  time_entered_exact k j elapsed o h = elim (Bool-cases (k == j)) [
    | inl same ↦ rw (same, h ((e.beq_iff k j).0 same)) (omega arith)
    | inr other ↦ rw other (omega arith)
  ]

  module _ (max elapsed : ℕ) (k j : K) (m : M K PidCpuTime) where
    abbrev add_to : M K PidCpuTime
    add_to = accumulate M max k (record { time_ns = elapsed }) (add_time elapsed) m

    abbrev own : ℕ
    own = if k == j then elapsed else 0

    pub accumulate_le : time_or_0 (b.lookup j add_to) ≤ time_or_0 (b.lookup j m) + own
    accumulate_le = elim (Option-cases (b.lookup k m)) [
      | inl h ↦ elim (l.insert_lem max k (record { time_ns = elapsed }) m) [
        | inl same ↦
            rw
              (accumulate-absent max k (record { time_ns = elapsed }) (add_time elapsed) m h ∙ same)
              (omega arith)
        | inr entered ↦
            rw
              (
                accumulate-absent max k (record { time_ns = elapsed }) (add_time elapsed) m h,
                entered j,
              )
              (time_entered k j elapsed (b.lookup j m))
      ]
      | inr (v, h) ↦
          rw (accumulate-present max k (record { time_ns = elapsed }) (add_time elapsed) m j v h)
            (time_found k j v elapsed (b.lookup j m) (λ p. ap (λ i. b.lookup i m) (sym p) ∙ h))
    ]

    pub accumulate_room :
        length (b.iter m) < max
        → time_or_0 (b.lookup j m) + own < u64_mod
        → time_or_0 (b.lookup j add_to) ≡ time_or_0 (b.lookup j m) + own
    accumulate_room room small = elim (Option-cases (b.lookup k m)) [
      | inl h ↦ elim (l.insert_lem max k (record { time_ns = elapsed }) m) [
        | inl same ↦
            let taken : Path (Option PidCpuTime) none (some (record { time_ns = elapsed })) =
              sym h
              ∙ ap (b.lookup k) (sym same)
              ∙ l.insert_room max k (record { time_ns = elapsed }) m room in
            ground (arith, taken)
        | inr entered ↦
            rw
              (
                accumulate-absent max k (record { time_ns = elapsed }) (add_time elapsed) m h,
                entered j,
              )
              (time_entered_exact k j elapsed (b.lookup j m)
                (λ p. ap (λ i. b.lookup i m) (sym p) ∙ h))
      ]
      | inr (v, h) ↦
          rw (accumulate-present max k (record { time_ns = elapsed }) (add_time elapsed) m j v h) (
            time_found_exact k j v elapsed (b.lookup j m) (λ p. ap (λ i. b.lookup i m) (sym p) ∙ h)
              small)
    ]

  remove_all-none :
      {V : Type 0} (k : K) (xs : List (K × V)) (m : M K V)
      → (filter (λ x. x.0 == k) xs ≡ [] → b.lookup k m ≡ none)
      → b.lookup k (remove_all M (keys xs) m) ≡ none
  unfolding remove_all
  remove_all-none k [] m h = h refl
  remove_all-none k (x ∷ xs) m h =
      remove_all-none k xs (b.remove x.0 m) (λ n. rw (l.remove_lem x.0 k m) (left n))
    where
      left : filter (λ y. y.0 == k) xs ≡ [] → (if x.0 == k then none else b.lookup k m) ≡ none
      left n = elim (Bool-cases (x.0 == k)) [
        | inl own ↦ rw own refl
        | inr other ↦ rw other (h (rw other n))
      ]

  none_listed : {V : Type 0} (k : K) (o : Option V) → entries_of k o ≡ [] → o ≡ none
  none_listed k none h = refl
  none_listed k (some v) h = ground arith

  -- After a map was read and its keys removed, it has no entry.
  pub lookup-drained : {V : Type 0} (k : K) (m : M K V) → b.lookup k (drained M m) ≡ none
  lookup-drained k m =
      remove_all-none k (b.iter m) m (λ n. none_listed k (b.lookup k m) (sym (l.iter_lem k m) ∙ n))

  iter_none : {V : Type 0} (m : M K V) → ((k : K) → b.lookup k m ≡ none) → b.iter m ≡ []
  iter_none m h = listed (b.iter m) refl
    where
      listed : (xs : List (K × _)) → b.iter m ≡ xs → b.iter m ≡ []
      listed [] q = q
      listed (x ∷ xs) q =
          let found : filter (λ y. y.0 == x.0) (x ∷ xs) ≡ [] =
            ap (filter (λ y. y.0 == x.0)) (sym q)
            ∙ l.iter_lem x.0 m
            ∙ ap (entries_of x.0) (h x.0) in
          ground (arith, found, e.beq_iff x.0 x.0)

  pub iter-drained : {V : Type 0} (m : M K V) → b.iter (drained M m) ≡ []
  iter-drained m = iter_none (drained M m) (λ k. lookup-drained k m)
