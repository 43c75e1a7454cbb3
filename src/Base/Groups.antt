-- ===== src/Base/Groups.antt =====
-- Grouping: a loop that finds or makes the entry of each item's key and updates it.
use mathlib.Core.Path.{◌≡◌, refl, sym, ◌∙◌}
use mathlib.Core.Logic.{inl, inr}
use mathlib.Core.Bool.{Bool, false}
use mathlib.Core.List.{List, [], ◌∷◌, map}
use mathlib.Core.Option.{Option, none, some}
use native.Mathlib.Omega.{arith}
use Prim.Native.Nat.{ℕ, ◌<◌}
use keck.Base.Tests.{Bool-cases, if◌then◌else◌, unwrap_or, is_some}
use keck.Base.Keys.{Eq, ◌==◌}
use keck.Base.Lists.{filter, All}
use keck.Base.Maps.{Map, get, upsert, IsMap, upsert-IsMap, get-upsert, values}
use keck.Base.Words.{
  u64_mod, sum_u64-lt, add_u64_mod, sum_u64, add_u64, add_u64_assoc, add_u64_left_comm,
}

module _ {ℓ} {K : Type ℓ} ⦃e : Eq K⦄ where
  abbrev pub has_key : K → Option K → Bool
  has_key k none = false
  has_key k (some j) = j == k

module _ {ℓ κ} {X : Type ℓ} {K : Type κ} ⦃e : Eq K⦄ where
  -- The items of one key, in the order of the loop.
  abbrev pub members : (X → Option K) → K → List X → List X
  members key k = filter λ x. has_key k (key x)

module _ {ℓ κ} {X : Type ℓ} {K : Type κ} where
  -- The items that have a key.
  abbrev pub keyed : (X → Option K) → List X → List X
  keyed key = filter λ x. is_some (key x)

module _ {ℓ μ} {X : Type ℓ} {V : Type μ} where
  abbrev pub run_steps : (X → V → V) → List X → V → V
  run_steps step [] v = v
  run_steps step (x ∷ xs) v = run_steps step xs (step x v)

  -- What a key's entry becomes: made by the first of its items, then updated by each of them.
  abbrev pub entry_of : (X → V) → (X → V → V) → List X → Option V → Option V
  entry_of init step [] o = o
  entry_of init step (x ∷ xs) o = some (run_steps step (x ∷ xs) (unwrap_or o (init x)))

  pub entry_of-some :
      (init : X → V) (step : X → V → V) (xs : List X) (v : V)
      → entry_of init step xs (some v) ≡ some (run_steps step xs v)
  entry_of-some init step [] v = refl
  entry_of-some init step (x ∷ xs) v = refl

  -- `if !p(x) { continue; }` at the head of a loop's body
  pub run_steps_if :
      (p : X → Bool) (step : X → V → V) (xs : List X) (v : V)
      → run_steps (λ x w. if p x then step x w else w) xs v ≡ run_steps step (filter p xs) v
  run_steps_if p step [] v = refl
  run_steps_if p step (x ∷ xs) v = elim (Bool-cases (p x)) [
    | inl hit ↦ rw hit (run_steps_if p step xs (step x v))
    | inr miss ↦ rw miss (run_steps_if p step xs v)
  ]

  module _ (step : X → V → V) (field : V → ℕ) (amount : X → ℕ) where
    -- The loop's body adds an amount to a field.
    abbrev pub Adds : Type (ℓ ⊔ μ)
    Adds = (x : X) (v : V) → field (step x v) ≡ add_u64 (field v) (amount x)

    field-run_steps_add :
        (xs : List X) (v : V)
        → Adds
        → field v < u64_mod
        → field (run_steps step xs v) ≡ add_u64 (field v) (sum_u64 (map amount xs))
    unfolding sum_u64 add_u64
    field-run_steps_add [] v h b = omega arith
    field-run_steps_add (x ∷ xs) v h b =
        let b' : field (step x v) < u64_mod = omega (arith, h x v) in
        omega (arith, h x v, field-run_steps_add xs (step x v) h b')

    -- A field that starts at 0 ends at the sum of the amounts.
    pub field-run_steps :
        (xs : List X) (v : V)
        → Adds
        → field v ≡ 0
        → field (run_steps step xs v) ≡ sum_u64 (map amount xs)
    unfolding add_u64
    field-run_steps xs v h z =
        let b : field v < u64_mod = omega arith in
        omega (arith, field-run_steps_add xs v h b, sum_u64-lt (map amount xs))

module _ {ℓ κ μ} {X : Type ℓ} {K : Type κ} {V : Type μ} ⦃e : Eq K⦄ where
  -- An item with no key is passed over (`continue`).
  put_item : (X → V) → (X → V → V) → X → Option K → Map K V → Map K V
  put_item init step x none m = m
  put_item init step x (some k) m = upsert k (init x) (step x) m

  unfoldable pub group : (X → Option K) → (X → V) → (X → V → V) → List X → Map K V → Map K V
  unfolding put_item
  group key init step [] m = m
  group key init step (x ∷ xs) m = group key init step xs (put_item init step x (key x) m)

  -- No item has a key.
  pub group-none :
      (key : X → Option K) (init : X → V) (step : X → V → V) (xs : List X) (m : Map K V)
      → ((x : X) → key x ≡ none)
      → group key init step xs m ≡ m
  unfolding group
  group-none key init step [] m h = refl
  group-none key init step (x ∷ xs) m h = rw (h x) (group-none key init step xs m h)

  put_item-IsMap :
      (init : X → V) (step : X → V → V) (x : X) (o : Option K) (m : Map K V)
      → IsMap m
      → IsMap (put_item init step x o m)
  unfolding put_item
  put_item-IsMap init step x none m h = h
  put_item-IsMap init step x (some k) m h = upsert-IsMap k (init x) (step x) m h

  pub group-IsMap :
      (key : X → Option K) (init : X → V) (step : X → V → V) (xs : List X) (m : Map K V)
      → IsMap m
      → IsMap (group key init step xs m)
  unfolding group
  group-IsMap key init step [] m h = h
  group-IsMap key init step (x ∷ xs) m h =
      group-IsMap key init step xs _ (put_item-IsMap init step x (key x) m h)

  -- What holds of each entry that the loop makes or updates holds of all entries.
  module _ {ν} (key : X → Option K) (init : X → V) (step : X → V → V) (P : K × V → Type ν) where
    abbrev pub IsKept : Type (ℓ ⊔ κ ⊔ μ ⊔ ν)
    IsKept =
        ((x : X) (k : K) → key x ≡ some k → P (k, step x (init x)))
        × ((x : X) (k : K) (v : V) → P (k, v) → P (k, step x v))

    All-upsert :
        (x : X) (k : K) (m : Map K V)
        → key x ≡ some k
        → IsKept
        → All P m
        → All P (upsert k (init x) (step x) m)
    unfolding upsert
    All-upsert x k [] q h v = (h.0 x k q, tt)
    All-upsert x k ((j, w) ∷ m) q h (v, vs) = elim (Bool-cases (j == k)) [
      | inl same ↦ rw same (h.1 x j w v, vs)
      | inr other ↦ rw other (v, All-upsert x k m q h vs)
    ]

    All-put_item :
        (x : X) (o : Option K) (m : Map K V)
        → key x ≡ o
        → IsKept
        → All P m
        → All P (put_item init step x o m)
    unfolding put_item
    All-put_item x none m q h v = v
    All-put_item x (some k) m q h v = All-upsert x k m q h v

    pub All-group :
        (xs : List X) (m : Map K V) → IsKept → All P m → All P (group key init step xs m)
    unfolding group
    All-group [] m h v = v
    All-group (x ∷ xs) m h v = All-group xs _ h (All-put_item x (key x) m refl h v)

  get-put_item :
      (init : X → V) (step : X → V → V) (x : X) (o : Option K) (k : K) (m : Map K V)
      → get k (put_item init step x o m)
        ≡ (if has_key k o then some (step x (unwrap_or (get k m) (init x))) else get k m)
  unfolding put_item
  get-put_item init step x none k m = refl
  get-put_item init step x (some j) k m =
      ground (arith, e.beq_iff j k, get-upsert j k (init x) (step x) m)

  -- After the loop each key has the entry that its own items make.
  pub get-group :
      (key : X → Option K) (init : X → V) (step : X → V → V) (k : K) (xs : List X) (m : Map K V)
      → get k (group key init step xs m) ≡ entry_of init step (members key k xs) (get k m)
  unfolding group
  get-group key init step k [] m = refl
  get-group key init step k (x ∷ xs) m = ground (
    arith,
    get-group key init step k xs (put_item init step x (key x) m),
    get-put_item init step x (key x) k m,
    entry_of-some init step (members key k xs) (step x (unwrap_or (get k m) (init x))),
  )

  module _ (key : X → Option K) (init : X → V) (step : X → V → V) (field : V → ℕ)
      (amount : X → ℕ) where
    abbrev pub Accumulates : Type (ℓ ⊔ μ)
    Accumulates =
        ((x : X) → field (init x) ≡ 0)
        × ((x : X) (v : V) → field (step x v) ≡ add_u64 (field v) (amount x))

    sum-upsert :
        (x : X) (k : K) (m : Map K V)
        → Accumulates
        → sum_u64 (map field (values (upsert k (init x) (step x) m)))
          ≡ add_u64 (amount x) (sum_u64 (map field (values m)))
    unfolding sum_u64 upsert add_u64
    sum-upsert x k [] h = omega (arith, h.1 x (init x), h.0 x)
    sum-upsert x k ((j, w) ∷ m) h = elim (Bool-cases (j == k)) [
      | inl hit ↦ rw hit (omega (arith, h.1 x w))
      | inr miss ↦ rw miss (omega (arith, sum-upsert x k m h))
    ]

    sum-put_item :
        (x : X) (o : Option K) (m : Map K V)
        → Accumulates
        → sum_u64 (map field (values (put_item init step x o m))) ≡ (
            if is_some o
            then add_u64 (amount x) (sum_u64 (map field (values m)))
            else sum_u64 (map field (values m)))
    unfolding put_item
    sum-put_item x none m h = refl
    sum-put_item x (some k) m h = sum-upsert x k m h

    sum-group_add :
        (xs : List X) (m : Map K V)
        → Accumulates
        → sum_u64 (map field (values (group key init step xs m)))
          ≡ add_u64 (sum_u64 (map amount (keyed key xs))) (sum_u64 (map field (values m)))
    unfolding group sum_u64
    sum-group_add [] m h =
        omega
          (arith, sum_u64-lt (map field (values m)), add_u64_mod 0 (sum_u64 (map field (values m))))
    sum-group_add (x ∷ xs) m h =
        let rest = sum-group_add xs (put_item init step x (key x) m) h in
        let here = sum-put_item x (key x) m h in
        elim (Bool-cases (is_some (key x))) [
          | inl has ↦ rw (rest, here, has) (add_u64_left_comm _ _ _ ∙ sym (add_u64_assoc _ _ _))
          | inr hasnt ↦ rw (rest, here, hasnt)
        ]

    -- Over all keys the entries hold what the keyed items bring, each of them once.
    pub sum-group :
        (xs : List X)
        → Accumulates
        → sum_u64 (map field (values (group key init step xs [])))
          ≡ sum_u64 (map amount (keyed key xs))
    unfolding sum_u64
    sum-group xs h = omega (
      arith,
      sum-group_add xs [] h,
      sum_u64-lt (map amount (keyed key xs)),
      add_u64_mod (sum_u64 (map amount (keyed key xs))) 0,
    )
