-- ===== src/Agent/Attribution/Tuner/Bounds.antt =====
-- keck-agent/src/attribution/tuner.rs: where the coefficients stay, and which cores are counted.
use keck.Base.{
  ℕ, ◌+◌, ◌%◌, ◌≡◌, refl, sym, ap, ◌∙◌, true, false, ◌||◌, Option, none, List, [], ◌∷◌, map, eqb,
  length, nat_eq, pair_eq, Bool-cases, inl, inr, arith, filter,
}
use mathlib.Core.Path.{subst}
use keck.Base.Words.{u64_mod, add_u64, sum_u64, sum}
use keck.Base.Float.{Float64, clamp}
use keck.Base.Maps.{get, values}
use keck.Base.Groups.{group, group-none, run_steps, run_steps_if, field-run_steps}
use keck.Agent.Attribution.Tuner.{
  CoefficientTuner, PidObs, Gradient, CpuTime, Counters, core_of, core_pids, qualifies, add_core,
  gradient, log_change, changed, descend, moved, update, new, consistency_error,
}

core_of-none : (x : CpuTime) → core_of [] x ≡ none
unfolding core_of get
core_of-none x = ground arith

length-zero : {A : Type 0} (xs : List A) → eqb (length xs) 0 ≡ true → xs ≡ []
length-zero [] h = refl
length-zero (x ∷ xs) h = ground arith

-- What the code relies on: `<` is irreflexive, and 2 and 10 are not below 0.05 and 0.01.
pub record LawfulOrder {ℓ} (F : Type ℓ) ⦃f : Float64 F⦄ : Type ℓ where
  pub irreflexive : (x : F) → f.lt x x ≡ false
  pub alpha_range : f.lt (f.lit 2 0) (f.lit 5 2) ≡ false
  pub beta_range : f.lt (f.lit 10 0) (f.lit 1 2) ≡ false

module _ {ℓ} {F : Type ℓ} ⦃f : Float64 F⦄ where
  -- Not below and not above; a NaN is neither.
  abbrev pub IsInRange : F → F → F → Type 0
  IsInRange lo hi x = (f.lt x lo ≡ false) × (f.lt hi x ≡ false)

  pub record IsBounded (t : CoefficientTuner F) : Type 0 where
    pub alpha_bounds : IsInRange (f.lit 5 2) (f.lit 2 0) t.alpha
    pub beta_bounds : IsInRange (f.lit 1 2) (f.lit 10 0) t.beta

  clamp-IsInRange :
      (x lo hi : F)
      → f.lt lo lo ≡ false
      → f.lt hi hi ≡ false
      → f.lt hi lo ≡ false
      → IsInRange lo hi (clamp x lo hi)
  clamp-IsInRange x lo hi a b c = ground arith

  -- The cores of an interval on which two processes at least ran, with IPCs that differ enough.
  abbrev pub signal : F → Counters × List CpuTime → ℕ
  signal diversity (counters, times) =
      length (filter (qualifies diversity) (values (core_pids counters times)))

  signal-no_counters : (d : F) (times : List CpuTime) → signal d ([], times) ≡ 0
  unfolding core_pids
  signal-no_counters d times =
      ap (λ m. length (filter (qualifies d) (values m)))
        (group-none (core_of []) _ _ times [] core_of-none)

  signal-no_times : (d : F) (counters : Counters) → signal d (counters, []) ≡ 0
  unfolding core_pids group
  signal-no_times d counters = refl

  sum-ones : (xs : List (List (PidObs F))) → sum_u64 (map (λ x. 1) xs) ≡ length xs % u64_mod
  unfolding sum_u64 add_u64
  sum-ones [] = refl
  sum-ones (x ∷ xs) = omega (arith, sum-ones xs)

  -- What a core that counts adds.
  abbrev count_core : CoefficientTuner F → List (PidObs F) → Gradient F → Gradient F
  count_core t pids g =
      let eps = f.lit 1 2 in
      let here = consistency_error pids t.alpha t.beta in
      record {
        d_alpha =
            f.add g.d_alpha
              (f.div (f.sub (consistency_error pids (f.add t.alpha eps) t.beta) here) eps);
        d_beta =
            f.add g.d_beta
              (f.div (f.sub (consistency_error pids t.alpha (f.add t.beta eps)) here) eps);
        qualifying = add_u64 g.qualifying 1;
      }

  gradient-qualifying :
      (t : CoefficientTuner F) (counters : Counters) (times : List CpuTime)
      → (gradient t counters times).qualifying
        ≡ signal t.min_ipc_diversity (counters, times) % u64_mod
  unfolding gradient add_core
  gradient-qualifying t counters times =
      let cores = values (core_pids counters times) in
      let start : Gradient F = record { d_alpha = f.lit 0 0; d_beta = f.lit 0 0; qualifying = 0 } in
      ap (λ g. g.qualifying)
        (run_steps_if (qualifies t.min_ipc_diversity) (count_core t) cores start)
      ∙ field-run_steps (count_core t) (λ g. g.qualifying) (λ x. 1)
          (filter (qualifies t.min_ipc_diversity) cores) start (λ x v. refl) refl
      ∙ sum-ones (filter (qualifies t.min_ipc_diversity) cores)

  log_change-kept :
      (t : CoefficientTuner F)
      → ((log_change t).alpha ≡ t.alpha)
        × ((log_change t).beta ≡ t.beta)
        × ((log_change t).qualifying_cores ≡ t.qualifying_cores)
        × ((log_change t).min_ipc_diversity ≡ t.min_ipc_diversity)
  unfolding log_change
  log_change-kept t =
      elim (Bool-cases (changed t.alpha t.last_logged_alpha || changed t.beta t.last_logged_beta)) [
        | inl logged ↦ rw logged (refl, refl, refl, refl)
        | inr quiet ↦ rw quiet (refl, refl, refl, refl)
      ]

  signal-nothing :
      (d : F) (counters : Counters) (times : List CpuTime)
      → (eqb (length counters) 0 || eqb (length times) 0) ≡ true
      → signal d (counters, times) ≡ 0
  signal-nothing d counters times h = elim (Bool-cases (eqb (length counters) 0)) [
    | inl none_counted ↦
        ap (λ c. signal d (c, times)) (length-zero counters none_counted)
        ∙ signal-no_counters d times
    | inr some_counted ↦
        ap (λ ts. signal d (counters, ts)) (length-zero times (rw some_counted at h))
        ∙ signal-no_times d counters
  ]

  -- What an interval leaves of the tuner.
  Follows : CoefficientTuner F → ℕ → CoefficientTuner F → Type ℓ
  Follows t n u =
      (IsBounded t → IsBounded u)
      × (u.qualifying_cores % u64_mod ≡ (t.qualifying_cores + n) % u64_mod)
      × (u.min_ipc_diversity ≡ t.min_ipc_diversity)

  descend-Follows :
      (laws : LawfulOrder F) (t : CoefficientTuner F) (g : Gradient F) (n : ℕ)
      → g.qualifying ≡ n % u64_mod
      → Follows t n (descend t g)
  unfolding Follows descend add_u64
  descend-Follows laws t g n h =
      let (same_a, same_b, same_q, same_d) = log_change-kept (moved t g) in
      let never = laws.irreflexive in
      let a = clamp-IsInRange _ _ _ (never (f.lit 5 2)) (never (f.lit 2 0)) laws.alpha_range in
      let b = clamp-IsInRange _ _ _ (never (f.lit 1 2)) (never (f.lit 10 0)) laws.beta_range in
      (
        λ _. record {
          alpha_bounds = subst (IsInRange (f.lit 5 2) (f.lit 2 0)) (sym same_a) a;
          beta_bounds = subst (IsInRange (f.lit 1 2) (f.lit 10 0)) (sym same_b) b;
        },
        omega (arith, same_q, h),
        same_d,
      )

  update-Follows :
      (laws : LawfulOrder F) (t : CoefficientTuner F) (x : Counters × List CpuTime)
      → Follows t (signal t.min_ipc_diversity x) (update x.0 x.1 t)
  unfolding Follows update
  update-Follows laws t (counters, times) =
      elim (Bool-cases (eqb (length counters) 0 || eqb (length times) 0)) [
        | inl nothing ↦
            rw nothing (
              λ b. b,
              omega (arith, signal-nothing t.min_ipc_diversity counters times nothing),
              refl,
            )
        | inr data_there ↦ elim (Bool-cases (eqb (gradient t counters times).qualifying 0)) [
          | inl silent ↦
              rw (data_there, silent)
                (λ b. b, ground (arith, gradient-qualifying t counters times), refl)
          | inr heard ↦
              rw (data_there, heard)
                (descend-Follows laws t (gradient t counters times) _
                  (gradient-qualifying t counters times))
        ]
      ]

  abbrev pub run : List (Counters × List CpuTime) → CoefficientTuner F → CoefficientTuner F
  run = run_steps (λ x. update x.0 x.1)

  run-Follows :
      (laws : LawfulOrder F) (xs : List (Counters × List CpuTime)) (t : CoefficientTuner F)
      → Follows t (sum (map (signal t.min_ipc_diversity) xs)) (run xs t)
  unfolding Follows sum
  run-Follows laws [] t = (λ b. b, omega arith, refl)
  run-Follows laws (x ∷ xs) t =
      let u = update x.0 x.1 t in
      let (keep, counted, same) = update-Follows laws t x in
      let (keep_all, counted_all, same_all) = run-Follows laws xs u in
      let total = ap (λ d. sum (map (signal d) xs)) same in
      (λ b. keep_all (keep b), omega (arith, counted, counted_all, total), same_all ∙ same)

  -- Over any intervals a tuner that starts with coefficients in their ranges keeps alpha from being
  -- below 0.05 or above 2 and beta from being below 0.01 or above 10 (a NaN is neither), and has
  -- counted, modulo 2^64, just the cores on which two processes at least ran whose IPCs differ by a
  -- factor of 2. That `<` is irreflexive, and 2 and 10 not below 0.05 and 0.01, is assumed.
  pub run-new_lem :
      (laws : LawfulOrder F) (lr : Option F) (alpha beta : F) (xs : List (Counters × List CpuTime))
      → IsInRange (f.lit 5 2) (f.lit 2 0) alpha
      → IsInRange (f.lit 1 2) (f.lit 10 0) beta
      → IsBounded (run xs (new lr alpha beta))
        × ((run xs (new lr alpha beta)).qualifying_cores % u64_mod
            ≡ sum (map (signal (f.lit 2 0)) xs) % u64_mod)
  unfolding new Follows
  run-new_lem laws lr alpha beta xs a b =
      let (keep, counted, same) = run-Follows laws xs (new lr alpha beta) in
      (keep (record { alpha_bounds = a; beta_bounds = b }), omega (arith, counted))
