-- ===== src/Agent/Attribution/Engine/Cores.antt =====
-- keck-agent/src/attribution/engine.rs: whether the split of the sockets divides by zero.
use native.Mathlib.Nat.{le-div_iff_mul-le, div-eq_of_lt}
use mathlib.Core.List.{flat_map}
use keck.Base.{
  ap, ℕ, suc, ◌+◌, ◌-◌, ◌*◌, ◌%◌, ◌^◌, ◌≤◌, ◌<◌, ◌≡◌, refl, ◌∙◌, Bool, true, false, inl, inr,
  Option, none, some, List, [], ◌∷◌, arith, if◌then◌else◌, eqb, is_some, Bool-cases, ltb, ltb→lt,
  lt→ltb,
}
use keck.Base.Float.{Float64}
use keck.Base.Maps.{Map}
use keck.Agent.Attribution.Energy.{EnergyInput}
use keck.Agent.Attribution.Observation.{ObservationSnapshot, is_nil}
use keck.Agent.Attribution.Split.{
  core_weights, split_socket, split_sockets, range, socket_cores, share_out, total_weight,
}
use keck.Agent.Attribution.Engine.{AttributionEngine, split_socket_to_cores, attribute, new}

no_cores : (idx : ℕ) → socket_cores 0 idx ≡ []
no_cores idx =
    let first = idx % 2 ^ 32 * 0 % 2 ^ 32 in
    let empty : (first + 0) % 2 ^ 32 - first ≡ 0 = omega arith in ap (range first) empty

one_of {ℓ} : {A : Type ℓ} (b : Bool) (x y : A) → is_some (if b then some x else some y) ≡ true
one_of true x y = refl
one_of false x y = refl

module _ {ℓ κ} {A : Type ℓ} {B : Type κ} where
  mapped :
      (o : Option A) (h : A → B)
      → is_some (elim o [ none ↦ none | some a ↦ some (h a) ]) ≡ is_some o
  mapped none h = refl
  mapped (some a) h = refl

  chained :
      (o : Option A) (h : A → Option B)
      → is_some o ≡ true
      → ((a : A) → is_some (h a) ≡ true)
      → is_some (elim o [ none ↦ none | some a ↦ h a ]) ≡ true
  chained none h k l = k
  chained (some a) h k l = l a

module _ {ℓ} {F : Type ℓ} ⦃f : Float64 F⦄ where
  share_out_some :
      (per_socket : ℕ) (total : F) (weights : Map ℕ F) (energy : ℕ) (cores : List ℕ) (m : Map ℕ ℕ)
      → eqb per_socket 0 ≡ false
      → is_some (share_out per_socket total weights energy cores m) ≡ true
  unfolding share_out
  share_out_some per_socket total weights energy cores m h =
      rw h (one_of (f.le total (f.lit 0 0)) _ _)

  split_sockets_some :
      (per_socket : ℕ) (weights : Map ℕ F) (idx : ℕ) (es : List ℕ) (m : Map ℕ ℕ)
      → eqb per_socket 0 ≡ false
      → is_some (split_sockets per_socket weights idx es m) ≡ true
  unfolding split_sockets split_socket
  split_sockets_some per_socket weights idx [] m h = refl
  split_sockets_some per_socket weights idx (e ∷ es) m h =
      chained (split_socket per_socket weights idx e m)
        (λ n. split_sockets per_socket weights (suc idx) es n)
        (share_out_some per_socket _ weights e (socket_cores per_socket idx) m h)
        (λ n. split_sockets_some per_socket weights (suc idx) es n h)

  split_socket-none :
      (weights : Map ℕ F) (idx energy : ℕ) (m : Map ℕ ℕ)
      → f.le (f.lit 0 0) (f.lit 0 0) ≡ true
      → split_socket 0 weights idx energy m ≡ none
  unfolding split_socket share_out flat_map
  split_socket-none weights idx energy m h =
      ap (λ cs. share_out 0 (total_weight weights cs) weights energy cs m) (no_cores idx)
      ∙ rw h refl

  split_sockets_none :
      (weights : Map ℕ F) (idx : ℕ) (es : List ℕ) (m : Map ℕ ℕ)
      → f.le (f.lit 0 0) (f.lit 0 0) ≡ true
      → is_nil es ≡ false
      → is_some (split_sockets 0 weights idx es m) ≡ false
  unfolding split_sockets
  split_sockets_none weights idx [] m h k = ground arith
  split_sockets_none weights idx (e ∷ es) m h k =
      ap (λ o. is_some (elim o [ none ↦ none | some n ↦ split_sockets 0 weights (suc idx) es n ]))
        (split_socket-none weights idx e m h)

  attribute_split :
      (now : ℕ) (obs : ObservationSnapshot) (energy : EnergyInput) (g : AttributionEngine F)
      → is_some (attribute now obs energy g) ≡ is_some (split_socket_to_cores g energy obs)
  unfolding attribute
  attribute_split now obs energy g = mapped (split_socket_to_cores g energy obs) _

module _ {ℓ} {F : Type ℓ} (f : Float64 F) where
  per_socket_positive :
      (num_cores num_sockets : ℕ)
      → 0 < num_cores
      → num_sockets ≤ num_cores
      → eqb (new ⦃f = f⦄ num_cores num_sockets).cores_per_socket 0 ≡ false
  unfolding new
  per_socket_positive num_cores num_sockets h k = elim (Bool-cases (ltb 0 num_sockets)) [
    | inl some_sockets ↦
        let positive = ltb→lt 0 num_sockets some_sockets in
        let one_each =
          (le-div_iff_mul-le {k = num_sockets} {x = 1} {y = num_cores} positive).1 (omega arith) in
        rw some_sockets (ground (arith, one_each))
    | inr none_at_all ↦ rw none_at_all (ground arith)
  ]

  per_socket_zero :
      (num_cores num_sockets : ℕ)
      → num_cores < num_sockets
      → (new ⦃f = f⦄ num_cores num_sockets).cores_per_socket ≡ 0
  unfolding new
  per_socket_zero num_cores num_sockets h = rw (lt→ltb 0 num_sockets (omega arith)) (div-eq_of_lt h)

  -- With at least as many cores as sockets, and at least one core, an interval always gives a
  -- snapshot.
  pub attribute_total :
      (now num_cores num_sockets : ℕ) (obs : ObservationSnapshot) (energy : EnergyInput)
      → 0 < num_cores
      → num_sockets ≤ num_cores
      → is_some (attribute ⦃f = f⦄ now obs energy (new ⦃f = f⦄ num_cores num_sockets)) ≡ true
  unfolding split_socket_to_cores
  attribute_total now num_cores num_sockets obs energy h k =
      let g = new ⦃f = f⦄ num_cores num_sockets in
      attribute_split ⦃f = f⦄ now obs energy g
      ∙ split_sockets_some ⦃f = f⦄ g.cores_per_socket _ 0 energy.socket_energy_uj []
          (per_socket_positive num_cores num_sockets h k)

  -- With fewer cores than sockets the engine panics at the first socket, whatever was observed, by a
  -- division by zero, if `0.0 <= 0.0`.
  pub attribute_panics :
      (now num_cores num_sockets : ℕ) (obs : ObservationSnapshot) (energy : EnergyInput)
      → f.le (f.lit 0 0) (f.lit 0 0) ≡ true
      → num_cores < num_sockets
      → is_nil energy.socket_energy_uj ≡ false
      → is_some (attribute ⦃f = f⦄ now obs energy (new ⦃f = f⦄ num_cores num_sockets)) ≡ false
  unfolding split_socket_to_cores
  attribute_panics now num_cores num_sockets obs energy z h k =
      let g = new ⦃f = f⦄ num_cores num_sockets in
      attribute_split ⦃f = f⦄ now obs energy g
      ∙ ap
          (λ n.
            is_some
              (split_sockets ⦃f = f⦄ n (core_weights ⦃f = f⦄ obs) 0 energy.socket_energy_uj []))
          (per_socket_zero num_cores num_sockets h)
      ∙ split_sockets_none ⦃f = f⦄ _ 0 energy.socket_energy_uj [] z k
