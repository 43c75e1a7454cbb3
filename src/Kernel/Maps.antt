-- ===== src/Kernel/Maps.antt =====
-- The hash maps of the BPF runtime as keck-ebpf/src/main.rs and keck-agent/src/ebpf/mod.rs use them:
-- the operations, and what their documentation says of them.
use keck.Base.{
  ℕ, suc, ◌≤◌, ◌<◌, ◌≡◌, ◌==◌, ◌⊎◌, Eq, Option, none, some, List, [], ◌∷◌, length, filter,
  if◌then◌else◌,
}

pub record BpfMaps (M : Type 0 → Type 0 → Type 0) : Type 1 where
  pub empty : {K V : Type 0} → M K V
  pub lookup : {K V : Type 0} ⦃e : Eq K⦄ → K → M K V → Option V
  -- `insert` of a map of at most so many entries, with the flag 0; it may fail, which the code ignores
  pub insert : {K V : Type 0} ⦃e : Eq K⦄ → ℕ → K → V → M K V → M K V
  -- a write through the pointer that `get_ptr_mut` gave
  pub write : {K V : Type 0} ⦃e : Eq K⦄ → K → V → M K V → M K V
  pub remove : {K V : Type 0} ⦃e : Eq K⦄ → K → M K V → M K V
  pub iter : {K V : Type 0} ⦃e : Eq K⦄ → M K V → List (K × V)

-- The entries of one key, for statements.
abbrev pub entries_of : {K V : Type 0} → K → Option V → List (K × V)
entries_of k none = []
entries_of k (some v) = (k, v) ∷ []

pub record LawfulMaps (M : Type 0 → Type 0 → Type 0) ⦃b : BpfMaps M⦄ : Type 1 where
  pub lookup-empty : {K V : Type 0} ⦃e : Eq K⦄ (k : K) → b.lookup k (b.empty {K = K} {V = V}) ≡ none
  pub iter-empty : {K V : Type 0} ⦃e : Eq K⦄ → b.iter {K = K} {V = V} b.empty ≡ []
  pub insert_lem :
      {K V : Type 0} ⦃e : Eq K⦄ (max : ℕ) (k : K) (v : V) (m : M K V)
      → (b.insert max k v m ≡ m)
        ⊎ ((j : K) → b.lookup j (b.insert max k v m) ≡ (if k == j then some v else b.lookup j m))
  pub insert_room :
      {K V : Type 0} ⦃e : Eq K⦄ (max : ℕ) (k : K) (v : V) (m : M K V)
      → length (b.iter m) < max
      → b.lookup k (b.insert max k v m) ≡ some v
  pub insert_count :
      {K V : Type 0} ⦃e : Eq K⦄ (max : ℕ) (k : K) (v : V) (m : M K V)
      → length (b.iter (b.insert max k v m)) ≤ suc (length (b.iter m))
  pub write_lem :
      {K V : Type 0} ⦃e : Eq K⦄ (k j : K) (v w : V) (m : M K V)
      → b.lookup k m ≡ some v
      → b.lookup j (b.write k w m) ≡ (if k == j then some w else b.lookup j m)
  pub write_count :
      {K V : Type 0} ⦃e : Eq K⦄ (k : K) (v w : V) (m : M K V)
      → b.lookup k m ≡ some v
      → length (b.iter (b.write k w m)) ≡ length (b.iter m)
  pub remove_lem :
      {K V : Type 0} ⦃e : Eq K⦄ (k j : K) (m : M K V)
      → b.lookup j (b.remove k m) ≡ (if k == j then none else b.lookup j m)
  -- without a change in between, an iteration meets each entry once
  pub iter_lem :
      {K V : Type 0} ⦃e : Eq K⦄ (k : K) (m : M K V)
      → filter (λ x. x.0 == k) (b.iter m) ≡ entries_of k (b.lookup k m)
