-- ===== src/Agent/Collector/Energy.antt =====
-- keck-agent/src/hardware/collector.rs: `energy_input`, what the collector hands to the engine.
use keck.Base.{
  ap, zero, suc, inl, inr, Bool-cases, ℕ, ◌≡◌, refl, sym, ◌∙◌, Bool, true, false, ◌&&◌, Option,
  none, some, List, [], ◌∷◌, ◌++◌, if◌then◌else◌, ltb, eqb, unwrap_or, arith, length, set,
  replicate, get_elem?, get_elem?-set, get_elem?-replicate, overwrite,
}
use keck.Agent.Attribution.Energy.{EnergyInput}
use keck.Agent.Collector.{
  Component, cpu, memory, gpu, platform, Granularity, socket, PowerReading, RegisteredSource,
  compute_energy_delta,
}
use keck.Agent.Collector.State.{HardwareCollector}

-- The variables of the loop.
pub record Energies : Type 0 where
  pub socket_energy : List ℕ
  pub dram_energy : List ℕ
  pub gpu_energy : List ℕ
  pub platform_energy : Option ℕ

abbrev set_checked : List ℕ → ℕ → ℕ → List ℕ
set_checked xs s d = if ltb s (length xs) then set xs s d else xs

-- The `match` on component and granularity.
unfoldable pub file_delta : Component → Granularity → ℕ → Energies → Energies
file_delta cpu (socket s) d e = record e { socket_energy = set_checked e.socket_energy s d }
file_delta memory (socket s) d e = record e { dram_energy = set_checked e.dram_energy s d }
file_delta gpu _ d e = record e { gpu_energy = e.gpu_energy ++ d ∷ [] }
file_delta platform _ d e = record e { platform_energy = some d }
file_delta _ _ d e = e

abbrev file_reading : Option PowerReading → Option PowerReading → Energies → Energies
file_reading (some curr) (some prev) e =
    let d = compute_energy_delta curr prev in
    if eqb d 0 then e else file_delta curr.component curr.granularity d e
file_reading _ _ e = e

unfoldable pub file_all : List RegisteredSource → Energies → Energies
file_all [] e = e
file_all (s ∷ ss) e = file_all ss (file_reading s.last_reading s.prev_reading e)

module _ {ℓ} {F : Type ℓ} where
  unfoldable pub energy_input : ℕ → HardwareCollector F → EnergyInput
  energy_input interval_ns c =
      let e = file_all c.sources (record {
        socket_energy = replicate c.num_sockets 0;
        dram_energy = replicate c.num_sockets 0;
        gpu_energy = [];
        platform_energy = none;
      }) in
      record {
        socket_energy_uj = e.socket_energy;
        dram_energy_uj = e.dram_energy;
        gpu_energy_uj = e.gpu_energy;
        platform_energy_uj = e.platform_energy;
        interval_ns = interval_ns;
      }

-- Whether a reading is of the package domain of the socket.
abbrev is_cpu_of : ℕ → Component → Granularity → Bool
is_cpu_of n cpu (socket s) = eqb s n
is_cpu_of n _ _ = false

abbrev cpu_delta : ℕ → Option PowerReading → Option PowerReading → Option ℕ
cpu_delta n (some curr) (some prev) =
    let d = compute_energy_delta curr prev in
    if is_cpu_of n curr.component curr.granularity && ltb 0 d then some d else none
cpu_delta n _ _ = none

abbrev prefer : Option ℕ → Option ℕ → Option ℕ
prefer (some d) old = some d
prefer none old = old

-- The delta, if not 0, of the last source that measures the package of the socket.
abbrev pub last_cpu_delta : ℕ → List RegisteredSource → Option ℕ
last_cpu_delta n [] = none
last_cpu_delta n (s ∷ ss) = prefer (last_cpu_delta n ss) (cpu_delta n s.last_reading s.prev_reading)

set_out : (xs : List ℕ) (i v : ℕ) → ltb i (length xs) ≡ false → set xs i v ≡ xs
set_out [] i v h = refl
set_out (x ∷ xs) zero v h = ground arith
set_out (x ∷ xs) (suc i) v h = ap (λ (r : List ℕ). x ∷ r) (set_out xs i v (ground arith))

set_checked_lem : (xs : List ℕ) (i v : ℕ) → set_checked xs i v ≡ set xs i v
set_checked_lem xs i v = elim (Bool-cases (ltb i (length xs))) [
  | inl inside ↦ rw inside
  | inr outside ↦ rw outside (sym (set_out xs i v outside))
]

file_delta_socket :
    (n : ℕ) (c : Component) (g : Granularity) (d : ℕ) (e : Energies)
    → get_elem? (file_delta c g d e).socket_energy n ≡ (
        if is_cpu_of n c g
        then overwrite (get_elem? e.socket_energy n) d
        else get_elem? e.socket_energy n)
unfolding file_delta
file_delta_socket n cpu (socket s) d e =
    ap (λ xs. get_elem? xs n) (set_checked_lem e.socket_energy s d)
    ∙ get_elem?-set e.socket_energy s n d
file_delta_socket n c g d e = ground arith

overwritten : Option ℕ → Option ℕ → Option ℕ
overwritten none old = old
overwritten (some d) old = overwrite old d

file_reading_socket :
    (n : ℕ) (last prev : Option PowerReading) (e : Energies)
    → get_elem? (file_reading last prev e).socket_energy n
      ≡ overwritten (cpu_delta n last prev) (get_elem? e.socket_energy n)
unfolding overwritten
file_reading_socket n none prev e = refl
file_reading_socket n (some curr) none e = refl
file_reading_socket n (some curr) (some prev) e =
    let d = compute_energy_delta curr prev in
    ground (arith, file_delta_socket n curr.component curr.granularity d e)

overwritten-prefer :
    (p q old : Option ℕ) → overwritten p (overwritten q old) ≡ overwritten (prefer p q) old
unfolding overwritten
overwritten-prefer p q old = ground arith

file_all_socket :
    (n : ℕ) (ss : List RegisteredSource) (e : Energies)
    → get_elem? (file_all ss e).socket_energy n
      ≡ overwritten (last_cpu_delta n ss) (get_elem? e.socket_energy n)
unfolding file_all overwritten
file_all_socket n [] e = refl
file_all_socket n (s ∷ ss) e =
    file_all_socket n ss (file_reading s.last_reading s.prev_reading e)
    ∙ ap (overwritten (last_cpu_delta n ss)) (file_reading_socket n s.last_reading s.prev_reading e)
    ∙ overwritten-prefer (last_cpu_delta n ss) _ (get_elem? e.socket_energy n)

overwritten-zero :
    (p : Option ℕ) (b : Bool)
    → overwritten p (if b then some 0 else none) ≡ (if b then some (unwrap_or p 0) else none)
unfolding overwritten
overwritten-zero none true = refl
overwritten-zero none false = refl
overwritten-zero (some d) true = refl
overwritten-zero (some d) false = refl

module _ {ℓ} {F : Type ℓ} where
  -- Every socket of the machine has an entry, which is the energy that the last source of its
  -- package measured, 0 if no source measured any; a socket that the machine does not have, whatever
  -- the sources say, has none.
  pub energy_input_socket :
      (interval n : ℕ) (c : HardwareCollector F)
      → get_elem? (energy_input interval c).socket_energy_uj n
        ≡ (if ltb n c.num_sockets then some (unwrap_or (last_cpu_delta n c.sources) 0) else none)
  unfolding energy_input
  energy_input_socket interval n c =
      file_all_socket n c.sources _
      ∙ ap (overwritten (last_cpu_delta n c.sources)) (get_elem?-replicate c.num_sockets n 0)
      ∙ overwritten-zero (last_cpu_delta n c.sources) (ltb n c.num_sockets)
