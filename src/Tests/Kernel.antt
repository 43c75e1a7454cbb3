-- ===== src/Tests/Kernel.antt =====
-- The kernel's theorems at concrete inputs, with a list as the map of the BPF runtime: a newer entry
-- hides the older ones of its key.
use keck.Base.{
  ℕ, suc, ◌+◌, ◌≤◌, ◌<◌, ◌≡◌, refl, ap, ◌∙◌, ◌==◌, ◌⊎◌, Eq, nat_eq, pair_eq, Bool, true, false, not,
  Option, none, some, inl, inr, List, [], ◌∷◌, filter, length, length-filter-le, ltb, is_some,
  if◌then◌else◌, arith, Bool-cases,
}
use keck.Base.Results.{ok}
use keck.Kernel.{PerfReads, loaded}
use keck.Kernel.Maps.{BpfMaps, LawfulMaps, entries_of}
use keck.Kernel.Time.{Event, switches, changes_frequency, drains, run, held, time_of, ran, fits}
use keck.Kernel.Time.Totals.{drained_time_le, drained_time_exact}

abbrev ListMap : Type 0 → Type 0 → Type 0
ListMap K V = List (K × V)

module _ {K V : Type 0} ⦃e : Eq K⦄ where
  abbrev keeps : K → K × V → Bool
  keeps k x = not (x.0 == k)

  abbrev find_key : K → ListMap K V → Option V
  find_key k [] = none
  find_key k (x ∷ m) = if x.0 == k then some x.1 else find_key k m

  abbrev visible : ListMap K V → List (K × V)
  visible [] = []
  visible (x ∷ m) = x ∷ filter (keeps x.0) (visible m)

  abbrev enter : ℕ → K → V → ListMap K V → ListMap K V
  enter max k v m =
      if is_some (find_key k m)
      then (k, v) ∷ m
      else if ltb (length (visible m)) max
      then (k, v) ∷ m
      else m

  drop_key-find :
      (k j : K) (m : ListMap K V)
      → find_key j (filter (keeps k) m) ≡ (if k == j then none else find_key j m)
  drop_key-find k j [] = ground arith
  drop_key-find k j (x ∷ m) =
      ground (arith, drop_key-find k j m, e.beq_iff k j, e.beq_iff x.0 k, e.beq_iff x.0 j)

  filter-keeps :
      (k j : K) (xs : List (K × V))
      → filter (λ x. x.0 == k) (filter (keeps j) xs)
        ≡ (if j == k then [] else filter (λ x. x.0 == k) xs)
  filter-keeps k j [] = ground arith
  filter-keeps k j (x ∷ xs) =
      ground (arith, filter-keeps k j xs, e.beq_iff j k, e.beq_iff x.0 k, e.beq_iff x.0 j)

  visible_lem :
      (k : K) (m : ListMap K V) → filter (λ x. x.0 == k) (visible m) ≡ entries_of k (find_key k m)
  visible_lem k [] = refl
  visible_lem k (x ∷ m) = elim (Bool-cases (x.0 == k)) [
    | inl own ↦
        rw (own, filter-keeps k x.0 (visible m), own)
          (ap {B = List (K × V)} (λ i. (i, x.1) ∷ []) ((e.beq_iff x.0 k).0 own))
    | inr other ↦ rw (other, filter-keeps k x.0 (visible m), other) (visible_lem k m)
  ]

  length-keeps :
      (k : K) (xs : List (K × V))
      → length (filter (keeps k) xs) + length (filter (λ x. x.0 == k) xs) ≡ length xs
  length-keeps k [] = omega arith
  length-keeps k (x ∷ xs) = ground (arith, length-keeps k xs)

  enter_lem :
      (max : ℕ) (k : K) (v : V) (m : ListMap K V)
      → (enter max k v m ≡ m)
        ⊎ ((j : K) → find_key j (enter max k v m) ≡ (if k == j then some v else find_key j m))
  enter_lem max k v m = entered (is_some (find_key k m)) (ltb (length (visible m)) max)
    where
      entered :
          (here room : Bool)
          → let t : ListMap K V = if here then (k, v) ∷ m else if room then (k, v) ∷ m else m in
            (t ≡ m) ⊎ ((j : K) → find_key j t ≡ (if k == j then some v else find_key j m))
      entered true room = inr (λ j. refl)
      entered false true = inr (λ j. refl)
      entered false false = inl refl

  enter_room :
      (max : ℕ) (k : K) (v : V) (m : ListMap K V)
      → length (visible m) < max
      → find_key k (enter max k v m) ≡ some v
  enter_room max k v m h = ground (arith, e.beq_iff k k)

  visible-cons :
      (k : K) (v : V) (m : ListMap K V) → length (visible ((k, v) ∷ m)) ≤ suc (length (visible m))
  visible-cons k v m = omega (arith, length-filter-le (keeps k) (visible m))

  enter_count :
      (max : ℕ) (k : K) (v : V) (m : ListMap K V)
      → length (visible (enter max k v m)) ≤ suc (length (visible m))
  enter_count max k v m = ground (arith, visible-cons k v m)

  write_count :
      (k : K) (v w : V) (m : ListMap K V)
      → find_key k m ≡ some v
      → length (visible ((k, w) ∷ m)) ≡ length (visible m)
  write_count k v w m h =
      let one : filter (λ x. x.0 == k) (visible m) ≡ (k, v) ∷ [] =
        visible_lem k m ∙ ap (entries_of k) h in
      omega (arith, length-keeps k (visible m), ap length one)

instance abbrev list_maps : BpfMaps ListMap
list_maps = record {
  empty = [];
  lookup = find_key;
  insert = enter;
  write = λ k v m. (k, v) ∷ m;
  remove = λ k m. filter (keeps k) m;
  iter = visible;
}

list_maps-LawfulMaps : LawfulMaps ListMap
list_maps-LawfulMaps = record {
  lookup-empty = λ k. refl;
  iter-empty = refl;
  insert_lem = enter_lem;
  insert_room = enter_room;
  insert_count = enter_count;
  write_lem = λ k j v w m h. refl;
  write_count = write_count;
  remove_lem = drop_key-find;
  iter_lem = visible_lem;
}

abbrev reads : ℕ → PerfReads
reads n = record { of_instructions = n; of_cycles = n; of_cache_misses = 0 }

-- On CPU 2 task 7 runs from 100 to 150, then 9 to 180, then 7 again to 260; the agent drains twice.
abbrev some_switches : List Event
some_switches =
    switches 100 2 (ok 0) (ok 7) 11 (reads 0) (reads 5)
    ∷ switches 150 2 (ok 7) (ok 9) 11 (reads 25) (reads 25)
    ∷ drains true
    ∷ switches 160 1 (ok 0) (ok 7) 11 (reads 0) (reads 0)
    ∷ switches 180 2 (ok 9) (ok 7) 12 (reads 40) (reads 40)
    ∷ changes_frequency 190 2 (ok 2400000) (ok 2)
    ∷ switches 260 2 (ok 7) (ok 0) 12 (reads 90) (reads 90)
    ∷ drains true
    ∷ []

drained_time_le_example :
    let (t, given) = run ListMap some_switches (loaded ListMap 1) in
    time_of (2, 7) given + held ListMap (2, 7) t ≤ ran 2 7 0 0 some_switches
drained_time_le_example = drained_time_le list_maps-LawfulMaps 2 7 1 some_switches

drained_time_exact_example :
    let (t, given) = run ListMap some_switches (loaded ListMap 1) in
    time_of (2, 7) given + held ListMap (2, 7) t ≡ 130
unfolding ran fits
drained_time_exact_example =
    drained_time_exact list_maps-LawfulMaps 2 7 1 some_switches refl (omega arith)
