-- ===== src/Fleet/Policy/Excesses.antt =====
-- keck-fleet/src/policy/mod.rs: what the policies forbid, and the loops that push violations.
use mathlib.Core.List.{flat_map, Perm, map-append}
use mathlib.Core.List.Perm
use keck.Base.{
  ℕ, ◌-◌, ◌/◌, ◌≡◌, refl, sym, ap, ◌∙◌, String, string_eq, Bool, true, false, Option, none, some,
  List, [], ◌∷◌, ◌++◌, map, if◌then◌else◌, ltb, filter, Bool-cases, inl, inr, arith, unwrap_or,
}
use mathlib.Core.Path.{subst}
use keck.Base.Float.{Float64, sum_f64}
use keck.Base.Maps.{values}
use keck.Fleet.Registry.Types.{ClusterReport, ClusterState, ClusterRegistry}
use keck.Fleet.Registry.{active_clusters, second}
use keck.Fleet.Registry.Teams.{items_of}
use keck.Fleet.Policy.{
  Severity, PolicyKind, team_power_budget, namespace_carbon_budget, metering_quality,
  carbon_intensity_preference, cluster_staleness, Policy, PolicyViolation, namespace_named,
  carbon_per_month, append_all,
}

module _ {ℓ} {F : Type ℓ} where
  -- Of a violation: the policy's name and severity, the value and the threshold.
  abbrev pub verdict : PolicyViolation F → String × Severity × F × F
  verdict v = (v.policy_name, v.severity, v.current_value, v.threshold)

  abbrev pub seconds_ago : ℕ → ClusterState F → ℕ
  seconds_ago now s = (now - s.received_at) / second

module _ {ℓ} {F : Type ℓ} ⦃f : Float64 F⦄ where
  -- The monthly emissions of the namespace in the cluster, if it is there.
  abbrev pub carbon_in : String → ClusterReport F → List F
  carbon_in namespace r = elim (namespace_named namespace r) [
    | none ↦ []
    | some ns ↦ carbon_per_month r ns ∷ []
  ]

  -- The power of the team, if it owns a namespace.
  abbrev pub power_in : String → ClusterRegistry F → List F
  power_in team reg = elim (items_of team reg) [
    | [] ↦ []
    | x ∷ xs ↦ sum_f64 (map (λ y. y.1.total_watts) (x ∷ xs)) ∷ []
  ]

  abbrev pub over : Policy F → F → List F → List (String × Severity × F × F)
  over p max xs = map (λ x. (p.name, p.severity, x, max)) (filter (f.lt max) xs)

  -- What a policy forbids and the registry shows.
  abbrev pub excesses :
      ℕ → ClusterRegistry F → Policy F → PolicyKind F → List (String × Severity × F × F)
  excesses now reg p (team_power_budget team max) = over p max (power_in team reg)
  excesses now reg p (namespace_carbon_budget namespace max) =
      over p max (flat_map (carbon_in namespace) (active_clusters now reg))
  excesses now reg p (metering_quality max) =
      over p max (map (λ r. r.avg_error_ratio) (active_clusters now reg))
  excesses now reg p (carbon_intensity_preference max) =
      over p max (map (λ r. r.carbon.intensity_grams_per_kwh) (active_clusters now reg))
  excesses now reg p (cluster_staleness max) =
      map (λ n. (p.name, p.severity, f.of_u64 n, f.of_u64 max))
        (filter (ltb max) (map (seconds_ago now) (values reg.clusters)))

  abbrev pub forbidden : ℕ → ClusterRegistry F → Policy F → List (String × Severity × F × F)
  forbidden now reg p = if p.enabled then excesses now reg p p.kind else []

pub one_if {ℓ} :
    {F : Type ℓ} (b : Bool) (v : PolicyViolation F)
    → map verdict (if b then v ∷ [] else []) ≡ (if b then verdict v ∷ [] else [])
one_if true v = refl
one_if false v = refl

-- A loop that pushes a violation for each value that is not kept.
module _ {ℓ κ μ} {F : Type ℓ} {A : Type κ} {B : Type μ} (fails : B → Bool)
    (w : B → String × Severity × F × F) (g : A → List (PolicyViolation F)) where
  pub pushed :
      (value : A → B) (xs : List A)
      → ((x : A) → map verdict (g x) ≡ (if fails (value x) then w (value x) ∷ [] else []))
      → map verdict (flat_map g xs) ≡ map w (filter fails (map value xs))
  unfolding flat_map
  pushed value [] h = refl
  pushed value (x ∷ xs) h =
      map-append verdict (g x) (flat_map g xs)
      ∙ (λ i. h x i ++ pushed value xs h i)
      ∙ split (fails (value x))
    where
      split :
          (b : Bool)
          → (if b then w (value x) ∷ [] else []) ++ map w (filter fails (map value xs))
            ≡ map w
                (if b then value x ∷ filter fails (map value xs) else filter fails (map value xs))
      split true = refl
      split false = refl

  filter-append : (xs ys : List B) → filter fails (xs ++ ys) ≡ filter fails xs ++ filter fails ys
  filter-append [] ys = refl
  filter-append (x ∷ xs) ys = elim (Bool-cases (fails x)) [
    | inl failing ↦ rw failing (ap (λ zs. x ∷ zs) (filter-append xs ys))
    | inr fine ↦ rw fine (filter-append xs ys)
  ]

  pub pushed_all :
      (found : A → List B) (xs : List A)
      → ((x : A) → map verdict (g x) ≡ map w (filter fails (found x)))
      → map verdict (flat_map g xs) ≡ map w (filter fails (flat_map found xs))
  unfolding flat_map
  pushed_all found [] h = refl
  pushed_all found (x ∷ xs) h =
      map-append verdict (g x) (flat_map g xs)
      ∙ (λ i. h x i ++ pushed_all found xs h i)
      ∙ sym (map-append w (filter fails (found x)) (filter fails (flat_map found xs)))
      ∙ ap (map w) (sym (filter-append (found x) (flat_map found xs)))

module _ {ℓ} {F : Type ℓ} where
  pub settled :
      (us vs : List (PolicyViolation F)) (zs : List (String × Severity × F × F))
      → Option.some us ≡ some vs
      → Perm (map verdict us) zs
      → Perm (map verdict vs) zs
  settled us vs zs h q = subst (λ ws. Perm (map verdict ws) zs) (ap (λ o. unwrap_or o vs) h) q

  pub equal : (us zs : List (String × Severity × F × F)) → us ≡ zs → Perm us zs
  equal us zs h = subst (Perm us) h (Perm.refl us)

  pub settled_append :
      (o r : Option (List (PolicyViolation F))) (vs : List (PolicyViolation F))
      (xs ys : List (String × Severity × F × F))
      → append_all o r ≡ some vs
      → ((us : List (PolicyViolation F)) → o ≡ some us → Perm (map verdict us) xs)
      → ((us : List (PolicyViolation F)) → r ≡ some us → Perm (map verdict us) ys)
      → Perm (map verdict vs) (xs ++ ys)
  settled_append none r vs xs ys h p q = ground (arith, h)
  settled_append (some us) none vs xs ys h p q = ground (arith, h)
  settled_append (some us) (some ws) vs xs ys h p q =
      settled (us ++ ws) vs (xs ++ ys) h
        (Perm.trans (equal _ _ (map-append verdict us ws)) (Perm.append (p us refl) (q ws refl)))
