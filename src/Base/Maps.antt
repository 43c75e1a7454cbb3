-- ===== src/Base/Maps.antt =====
-- `HashMap` as an association list. The order of the entries is whatever order the table has.
use mathlib.Core.Path.{◌≡◌, refl, ap}
use mathlib.Core.Bool.{Bool, true}
use mathlib.Core.List.{List, [], ◌∷◌, map}
use mathlib.Core.Option.{Option, none, some}
use native.Mathlib.Omega.{arith}
use mathlib.Core.Logic.{inl, inr}
use keck.Base.Lists.{All, find}
use keck.Base.Tests.{Bool-cases, if◌then◌else◌, is_some, unwrap_or, keep_if}
use keck.Base.Keys.{Eq, ◌==◌}

abbrev pub Map {ℓ κ} : Type ℓ → Type κ → Type (ℓ ⊔ κ)
Map K V = List (K × V)

module _ {ℓ κ} {K : Type ℓ} {V : Type κ} where
  abbrev pub keys : Map K V → List K
  keys = map λ e. e.0

  abbrev pub values : Map K V → List V
  values = map λ e. e.1

  -- `values_mut`
  unfoldable pub map_values : (V → V) → Map K V → Map K V
  map_values f [] = []
  map_values f ((j, w) ∷ m) = (j, f w) ∷ map_values f m

module _ {ℓ} {V : Type ℓ} where
  abbrev pub map_option : (V → V) → Option V → Option V
  map_option f none = none
  map_option f (some v) = some (f v)

module _ {ℓ κ} {K : Type ℓ} {V : Type κ} ⦃e : Eq K⦄ where
  -- `get`
  unfoldable pub get : K → Map K V → Option V
  get k [] = none
  get k ((j, v) ∷ m) = if j == k then some v else get k m

  -- `contains_key`
  abbrev pub contains_key : K → Map K V → Bool
  contains_key k m = is_some (get k m)

  unfoldable pub insert : K → V → Map K V → Map K V
  insert k v [] = (k, v) ∷ []
  insert k v ((j, w) ∷ m) = if j == k then (k, v) ∷ m else (j, w) ∷ insert k v m

  -- `*entry(k).or_insert(d)` updated by `f`
  unfoldable pub upsert : K → V → (V → V) → Map K V → Map K V
  upsert k d f [] = (k, f d) ∷ []
  upsert k d f ((j, w) ∷ m) = if j == k then (j, f w) ∷ m else (j, w) ∷ upsert k d f m

  unfoldable pub retain : (K → V → Bool) → Map K V → Map K V
  retain p [] = []
  retain p ((j, w) ∷ m) = if p j w then (j, w) ∷ retain p m else retain p m

  -- Each key stands once.
  abbrev pub IsMap : Map K V → Type κ
  IsMap [] = Unit
  IsMap ((k, v) ∷ m) = (get k m ≡ none) × IsMap m

  pub get-insert :
      (k j : K) (v : V) (m : Map K V) → get j (insert k v m) ≡ (if k == j then some v else get j m)
  unfolding get insert
  get-insert k j v [] = refl
  get-insert k j v ((i, w) ∷ m) =
      ground (arith, e.beq_iff k j, e.beq_iff i k, e.beq_iff i j, get-insert k j v m)

  pub get-insert_self : (k : K) (v : V) (m : Map K V) → get k (insert k v m) ≡ some v
  get-insert_self k v m = rw (get-insert, (e.beq_iff k k).1 refl)

  pub get-upsert :
      (k j : K) (d : V) (f : V → V) (m : Map K V)
      → get j (upsert k d f m) ≡ (if k == j then some (f (unwrap_or (get k m) d)) else get j m)
  unfolding get upsert
  get-upsert k j d f [] = ground (arith, e.beq_iff k j)
  get-upsert k j d f ((i, w) ∷ m) =
      ground (arith, e.beq_iff k j, e.beq_iff i k, e.beq_iff i j, get-upsert k j d f m)

  pub get-retain-none :
      (k : K) (p : K → V → Bool) (m : Map K V) → get k m ≡ none → get k (retain p m) ≡ none
  unfolding get retain
  get-retain-none k p [] h = refl
  get-retain-none k p ((j, w) ∷ m) h = ground (arith, get-retain-none k p m)

  pub get-retain :
      (k : K) (p : K → V → Bool) (m : Map K V)
      → IsMap m
      → get k (retain p m) ≡ keep_if (p k) (get k m)
  unfolding get retain
  get-retain k p [] h = refl
  get-retain k p ((j, w) ∷ m) h =
      ground (arith, e.beq_iff j k, get-retain k p m h.1, get-retain-none k p m)

  pub insert-IsMap : (k : K) (v : V) (m : Map K V) → IsMap m → IsMap (insert k v m)
  unfolding get insert
  insert-IsMap k v [] h = (refl, tt)
  insert-IsMap k v ((j, w) ∷ m) h =
      ground (arith, e.beq_iff j k, e.beq_iff k j, insert-IsMap k v m h.1, get-insert k j v m)

  pub upsert-IsMap : (k : K) (d : V) (f : V → V) (m : Map K V) → IsMap m → IsMap (upsert k d f m)
  unfolding get upsert
  upsert-IsMap k d f [] h = (refl, tt)
  upsert-IsMap k d f ((j, w) ∷ m) h =
      ground (arith, e.beq_iff j k, e.beq_iff k j, upsert-IsMap k d f m h.1, get-upsert k j d f m)

  pub retain-IsMap : (p : K → V → Bool) (m : Map K V) → IsMap m → IsMap (retain p m)
  unfolding get retain
  retain-IsMap p [] h = tt
  retain-IsMap p ((j, w) ∷ m) h = ground (arith, retain-IsMap p m h.1, get-retain-none j p m)

  pub get-map_values :
      (k : K) (f : V → V) (m : Map K V) → get k (map_values f m) ≡ map_option f (get k m)
  unfolding get map_values
  get-map_values k f [] = refl
  get-map_values k f ((j, w) ∷ m) = ground (arith, get-map_values k f m)

  pub map_values-IsMap : (f : V → V) (m : Map K V) → IsMap m → IsMap (map_values f m)
  unfolding map_values
  map_values-IsMap f [] h = tt
  map_values-IsMap f ((j, w) ∷ m) h = ground (arith, map_values-IsMap f m h.1, get-map_values j f m)

  -- A list made of the entries, each item with its key as its name, searched for a name.
  pub find-entries {μ} :
      {A : Type μ} (name : A → K) (make : K → V → A) (k : K) (m : Map K V)
      → ((j : K) (v : V) → name (make j v) ≡ j)
      → find (λ a. name a == k) (map (λ x. make x.0 x.1) m)
        ≡ elim (get k m) [ none ↦ none | some v ↦ some (make k v) ]
  unfolding get
  find-entries name make k [] h = refl
  find-entries {A} name make k ((j, v) ∷ m) h = elim (Bool-cases (j == k)) [
    | inl own ↦
        let same : j ≡ k = (e.beq_iff j k).0 own in
        rw (h j v, own) (ap {B = Option A} (λ i. some (make i v)) same)
    | inr other ↦ rw (h j v, other) (find-entries name make k m h)
  ]

  module _ {μ} (P : K × V → Type μ) where
    pub All-insert : (k : K) (v : V) (m : Map K V) → P (k, v) → All P m → All P (insert k v m)
    unfolding insert
    All-insert k v [] p h = (p, tt)
    All-insert k v ((j, w) ∷ m) p h = elim (Bool-cases (j == k)) [
      | inl hit ↦ rw hit (p, h.1)
      | inr miss ↦ rw miss (h.0, All-insert k v m p h.1)
    ]

    pub All-upsert :
        (k : K) (d : V) (f : V → V) (m : Map K V)
        → ((j : K) (w : V) → P (j, f w))
        → All P m
        → All P (upsert k d f m)
    unfolding upsert
    All-upsert k d f [] p h = (p k d, tt)
    All-upsert k d f ((j, w) ∷ m) p h = elim (Bool-cases (j == k)) [
      | inl hit ↦ rw hit (p j w, h.1)
      | inr miss ↦ rw miss (h.0, All-upsert k d f m p h.1)
    ]

    pub All-retain : (p : K → V → Bool) (m : Map K V) → All P m → All P (retain p m)
    unfolding retain
    All-retain p [] h = tt
    All-retain p ((j, w) ∷ m) h = elim (Bool-cases (p j w)) [
      | inl kept ↦ rw kept (h.0, All-retain p m h.1)
      | inr gone ↦ rw gone (All-retain p m h.1)
    ]

  pub retain_kept : (p : K → V → Bool) (m : Map K V) → All (λ e. p e.0 e.1 ≡ true) (retain p m)
  unfolding retain
  retain_kept p [] = tt
  retain_kept p ((j, w) ∷ m) = elim (Bool-cases (p j w)) [
    | inl kept ↦ rw kept (kept, retain_kept p m)
    | inr gone ↦ rw gone (retain_kept p m)
  ]
