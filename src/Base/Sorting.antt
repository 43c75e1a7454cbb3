-- ===== src/Base/Sorting.antt =====
-- Sorting by comparisons.
use mathlib.Core.Path.{◌≡◌, refl, ◌∙◌}
use mathlib.Core.Logic.{inl, inr}
use mathlib.Core.Bool.{Bool, true}
use mathlib.Core.List.{List, [], ◌∷◌, ◌++◌, map, flat_map, Perm}
use mathlib.Core.Option.{none, some}
use mathlib.Core.List.Perm
use native.Mathlib.Omega.{arith}
use Prim.Native.Nat.{ℕ, ◌≤◌}
use keck.Base.Tests.{if◌then◌else◌, leb, leb→le, Bool-cases}
use keck.Base.Lists.{All, find}
use keck.Base.Words.{sum_u64, add_u64, add_u64_left_comm}

put_between {ℓ} : {A : Type ℓ} (a : A) (xs ys : List A) → Perm (xs ++ (a ∷ ys)) (a ∷ (xs ++ ys))
put_between a [] ys = Perm.refl _
put_between a (x ∷ xs) ys =
    Perm.trans (Perm.cons x (put_between a xs ys)) (Perm.swap a x (xs ++ ys))

swap_front {ℓ} : {A : Type ℓ} (xs ys zs : List A) → Perm (xs ++ (ys ++ zs)) (ys ++ (xs ++ zs))
swap_front [] ys zs = Perm.refl _
swap_front (x ∷ xs) ys zs =
    Perm.trans (Perm.cons x (swap_front xs ys zs)) (Perm.symm (put_between x ys (xs ++ zs)))

module _ {ℓ} {A : Type ℓ} where
  -- At most one item passes the test.
  abbrev pub IsUnique : (A → Bool) → List A → Type ℓ
  IsUnique p [] = Unit
  IsUnique p (x ∷ xs) = (p x ≡ true → find p xs ≡ none) × IsUnique p xs

module _ {ℓ} {A : Type ℓ} (first : A → A → Bool) where
  -- In front of the first item that it may stand before.
  place : A → List A → List A
  place x [] = x ∷ []
  place x (y ∷ ys) = if first x y then x ∷ y ∷ ys else y ∷ place x ys

  -- `sort_by`, stable: an item stays before a later one that it may stand before.
  unfoldable pub sort_by : List A → List A
  unfolding place
  sort_by [] = []
  sort_by (x ∷ xs) = place x (sort_by xs)

  All-place {κ} : (P : A → Type κ) (x : A) (ys : List A) → P x → All P ys → All P (place x ys)
  unfolding place
  All-place P x [] p q = (p, tt)
  All-place P x (y ∷ ys) p q = ground (arith, All-place P x ys p q.1)

  place-perm : (x : A) (ys : List A) → Perm (place x ys) (x ∷ ys)
  unfolding place
  place-perm x [] = Perm.refl _
  place-perm x (y ∷ ys) = elim (Bool-cases (first x y)) [
    | inl before ↦ rw before (Perm.refl _)
    | inr after ↦ rw after (Perm.trans (Perm.cons y (place-perm x ys)) (Perm.swap x y ys))
  ]

  pub sort_by-perm : (xs : List A) → Perm (sort_by xs) xs
  unfolding sort_by
  sort_by-perm [] = Perm.refl _
  sort_by-perm (x ∷ xs) = Perm.trans (place-perm x (sort_by xs)) (Perm.cons x (sort_by-perm xs))

  sum-place :
      (f : A → ℕ) (x : A) (ys : List A)
      → sum_u64 (map f (place x ys)) ≡ add_u64 (f x) (sum_u64 (map f ys))
  unfolding place sum_u64
  sum-place f x [] = refl
  sum-place f x (y ∷ ys) = elim (Bool-cases (first x y)) [
    | inl before ↦ rw before
    | inr after ↦ rw (after, sum-place f x ys) (add_u64_left_comm (f y) (f x) _)
  ]

  pub sum-sort_by : (f : A → ℕ) (xs : List A) → sum_u64 (map f (sort_by xs)) ≡ sum_u64 (map f xs)
  unfolding sort_by sum_u64
  sum-sort_by f [] = refl
  sum-sort_by f (x ∷ xs) = rw (sum-place f x (sort_by xs), sum-sort_by f xs)

  flat_map-place {κ} :
      {B : Type κ} (g : A → List B) (x : A) (ys : List A)
      → Perm (flat_map g (place x ys)) (g x ++ flat_map g ys)
  unfolding place flat_map
  flat_map-place g x [] = Perm.refl _
  flat_map-place g x (y ∷ ys) = elim (Bool-cases (first x y)) [
    | inl before ↦ rw before (Perm.refl _)
    | inr after ↦ rw after (
        Perm.trans (Perm.append_left (g y) (flat_map-place g x ys))
          (swap_front (g y) (g x) (flat_map g ys)))
  ]

  -- What each item gives is given as well after sorting.
  pub flat_map-sort_by {κ} :
      {B : Type κ} (g : A → List B) (xs : List A) → Perm (flat_map g (sort_by xs)) (flat_map g xs)
  unfolding sort_by flat_map
  flat_map-sort_by g [] = Perm.refl _
  flat_map-sort_by g (x ∷ xs) =
      Perm.trans (flat_map-place g x (sort_by xs)) (Perm.append_left (g x) (flat_map-sort_by g xs))

  find-place :
      (p : A → Bool) (x : A) (ys : List A)
      → (p x ≡ true → find p ys ≡ none)
      → find p (place x ys) ≡ find p (x ∷ ys)
  unfolding place
  find-place p x [] h = refl
  find-place p x (y ∷ ys) h = ground (arith, find-place p x ys)

  pub find-sort_by : (p : A → Bool) (xs : List A) → IsUnique p xs → find p (sort_by xs) ≡ find p xs
  unfolding sort_by
  find-sort_by p [] h = refl
  find-sort_by p (x ∷ xs) (h, hs) =
      let rest = find-sort_by p xs hs in
      find-place p x (sort_by xs) (λ hit. rest ∙ h hit) ∙ (λ i. if p x then some x else rest i)

module _ {ℓ} {A : Type ℓ} (key : A → ℕ) where
  abbrev above : A → A → Bool
  above x y = leb (key y) (key x)

  -- `sort_by(|a, b| b.key.cmp(&a.key))`: the highest key first.
  abbrev pub sort_desc : List A → List A
  sort_desc = sort_by above

  abbrev pub IsDescending : List A → Type 0
  IsDescending [] = Unit
  IsDescending (x ∷ xs) = All (λ y. key y ≤ key x) xs × IsDescending xs

  All-mono : (a b : ℕ) (ys : List A) → a ≤ b → All (λ y. key y ≤ a) ys → All (λ y. key y ≤ b) ys
  All-mono a b [] h q = tt
  All-mono a b (y ∷ ys) h q = (omega arith, All-mono a b ys h q.1)

  place-IsDescending : (x : A) (ys : List A) → IsDescending ys → IsDescending (place above x ys)
  unfolding place
  place-IsDescending x [] d = (tt, tt)
  place-IsDescending x (y ∷ ys) d = elim (Bool-cases (leb (key y) (key x))) [
    | inl small ↦
        rw small ((leb→le _ _ small, All-mono (key y) (key x) ys (leb→le _ _ small) d.0), d)
    | inr large ↦
        rw large (
          All-place above (λ z. key z ≤ key y) x ys (ground arith) d.0,
          place-IsDescending x ys d.1,
        )
  ]

  pub sort_desc-IsDescending : (xs : List A) → IsDescending (sort_desc xs)
  unfolding sort_by
  sort_desc-IsDescending [] = tt
  sort_desc-IsDescending (x ∷ xs) = place-IsDescending x _ (sort_desc-IsDescending xs)
