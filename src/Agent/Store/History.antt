-- ===== src/Agent/Store/History.antt =====
-- keck-agent/src/store/mod.rs: the rings and the history of the calls.
use Prim.Native.Nat.{max}
use keck.Base.{
  ℕ, zero, suc, ◌-◌, ◌≤◌, ◌<◌, ◌≡◌, refl, sym, inl, inr, true, false, List, [], ◌∷◌, ◌++◌, arith,
  leb, Bool-cases, leb→le, length, length-append, drop,
}
use mathlib.Core.List.{append_assoc, append-nil}
use keck.Agent.Attribution.Types.{AttributionSnapshot}
use keck.Agent.Store.{
  LocalStore, PodSummary, StoreProfile, push_bounded, pop_front, push_summaries, push, summaries_of,
  new, detail_capacity, summary_capacity, drain_outbox, requeue,
}

module _ {ℓ} {A : Type ℓ} where
  -- The last `n` entries.
  abbrev pub keep_last : ℕ → List A → List A
  keep_last n xs = drop (length xs - n) xs

  drop-nil : (k : ℕ) → drop {A = A} k [] ≡ []
  drop-nil zero = refl
  drop-nil (suc k) = refl

  length-drop : (k : ℕ) (xs : List A) → length (drop k xs) ≡ length xs - k
  length-drop zero xs = omega arith
  length-drop (suc k) [] = omega arith
  length-drop (suc k) (x ∷ xs) = omega (arith, length-drop k xs)

  pub length-keep_last-le : (n : ℕ) (xs : List A) → length (keep_last n xs) ≤ n
  length-keep_last-le n xs = omega (arith, length-drop (length xs - n) xs)

  pop_front-drop : (k : ℕ) (xs : List A) → pop_front (drop k xs) ≡ drop (suc k) xs
  pop_front-drop zero [] = refl
  pop_front-drop zero (x ∷ xs) = refl
  pop_front-drop (suc k) [] = refl
  pop_front-drop (suc k) (x ∷ xs) = pop_front-drop k xs

  append-drop : (k : ℕ) (xs ys : List A) → k ≤ length xs → drop k xs ++ ys ≡ drop k (xs ++ ys)
  append-drop zero xs ys h = refl
  append-drop (suc k) [] ys h = absurd (omega arith)
  append-drop (suc k) (x ∷ xs) ys h = append-drop k xs ys (omega arith)

  full_ring :
      (cap : ℕ) (past : List A) (x : A)
      → max 1 cap ≤ length past
      → push_bounded cap (keep_last (max 1 cap) past) x ≡ keep_last (max 1 cap) (past ++ x ∷ [])
  unfolding push_bounded
  full_ring cap past x h =
      let k = length past - max 1 cap in
      let full : leb cap (length (drop k past)) ≡ true = ground (arith, length-drop k past) in
      let next : length (past ++ x ∷ []) - max 1 cap ≡ suc k =
        omega (arith, length-append past (x ∷ [])) in
      rw (full, next, pop_front-drop k past) (append-drop (suc k) past (x ∷ []) (omega arith))

  push_bounded_part :
      (cap : ℕ) (past : List A) (x : A)
      → length past < max 1 cap
      → push_bounded cap past x ≡ past ++ x ∷ []
  unfolding push_bounded
  push_bounded_part cap [] x h = ground arith
  push_bounded_part cap (y ∷ ys) x h =
      let room : leb cap (length (y ∷ ys)) ≡ false = ground arith in rw room

  part_ring :
      (cap : ℕ) (past : List A) (x : A)
      → length past < max 1 cap
      → push_bounded cap (keep_last (max 1 cap) past) x ≡ keep_last (max 1 cap) (past ++ x ∷ [])
  part_ring cap past x h =
      let now : length past - max 1 cap ≡ 0 = omega arith in
      let next : length (past ++ x ∷ []) - max 1 cap ≡ 0 =
        omega (arith, length-append past (x ∷ [])) in
      rw (now, next) (push_bounded_part cap past x h)

  -- A push into the end of a history gives the end of the longer history. A ring of capacity 0
  -- still holds the newest entry.
  pub push_bounded-keep_last :
      (cap : ℕ) (past : List A) (x : A)
      → push_bounded cap (keep_last (max 1 cap) past) x ≡ keep_last (max 1 cap) (past ++ x ∷ [])
  push_bounded-keep_last cap past x = elim (Bool-cases (leb (max 1 cap) (length past))) [
    | inl full ↦ full_ring cap past x (leb→le _ _ full)
    | inr part ↦ part_ring cap past x (ground arith)
  ]

-- The calls that change a store, with what each is given.
pub data Call {ℓ} (F : Type ℓ) : Type ℓ where
  pushes : (ℕ → ℕ) → AttributionSnapshot F → Call F
  drains : Call F
  requeues : List PodSummary → Call F

module _ {ℓ} {F : Type ℓ} where
  abbrev pub step : Call F → LocalStore F → LocalStore F
  step (pushes clock snapshot) s = push clock snapshot s
  step drains s = (drain_outbox s).1
  step (requeues xs) s = requeue xs s

  abbrev pub run : List (Call F) → LocalStore F → LocalStore F
  run [] s = s
  run (c ∷ cs) s = run cs (step c s)

  -- All the snapshots, and all the summaries, that the calls pushed.
  abbrev pub snapshots_pushed : List (Call F) → List (AttributionSnapshot F)
  snapshots_pushed [] = []
  snapshots_pushed (pushes clock x ∷ cs) = x ∷ snapshots_pushed cs
  snapshots_pushed (drains ∷ cs) = snapshots_pushed cs
  snapshots_pushed (requeues xs ∷ cs) = snapshots_pushed cs

  abbrev pub summaries_pushed : List (Call F) → List PodSummary
  summaries_pushed [] = []
  summaries_pushed (pushes clock x ∷ cs) = summaries_of clock 0 x.pods ++ summaries_pushed cs
  summaries_pushed (drains ∷ cs) = summaries_pushed cs
  summaries_pushed (requeues xs ∷ cs) = summaries_pushed cs

  -- A store with the histories `d` and `h` behind its rings.
  pub record Holds (p : StoreProfile) (d : List (AttributionSnapshot F)) (h : List PodSummary)
      (s : LocalStore F) : Type ℓ where
    pub kept : s.profile ≡ p
    pub details : s.detail_ring ≡ keep_last (max 1 (detail_capacity p)) d
    pub summaries : s.summary_ring ≡ keep_last (max 1 (summary_capacity p)) h

  push_summaries-Holds :
      (p : StoreProfile) (d : List (AttributionSnapshot F)) (h xs : List PodSummary)
      (s : LocalStore F)
      → Holds p d h s
      → Holds p d (h ++ xs) (push_summaries xs s)
  unfolding push_summaries
  push_summaries-Holds p d h [] s v = rw append-nil v
  push_summaries-Holds p d h (x ∷ xs) s v = rw (sym (append_assoc h (x ∷ []) xs)) (
      push_summaries-Holds p d (h ++ x ∷ []) xs _ (record {
        kept = v.kept;
        details = v.details;
        summaries = rw (v.kept, v.summaries) (push_bounded-keep_last (summary_capacity p) h x);
      }))

  push-Holds :
      (p : StoreProfile) (d : List (AttributionSnapshot F)) (h : List PodSummary) (clock : ℕ → ℕ)
      (x : AttributionSnapshot F) (s : LocalStore F)
      → Holds p d h s
      → Holds p (d ++ x ∷ []) (h ++ summaries_of clock 0 x.pods) (push clock x s)
  unfolding push
  push-Holds p d h clock x s v =
      push_summaries-Holds p (d ++ x ∷ []) h (summaries_of clock 0 x.pods) _ (record {
        kept = v.kept;
        details = rw (v.kept, v.details) (push_bounded-keep_last (detail_capacity p) d x);
        summaries = v.summaries;
      })

  run-Holds :
      (p : StoreProfile) (d : List (AttributionSnapshot F)) (h : List PodSummary)
      (cs : List (Call F)) (s : LocalStore F)
      → Holds p d h s
      → Holds p (d ++ snapshots_pushed cs) (h ++ summaries_pushed cs) (run cs s)
  unfolding drain_outbox requeue
  run-Holds p d h [] s v = rw (append-nil d, append-nil h) v
  run-Holds p d h (pushes clock x ∷ cs) s v =
      rw
        (
          sym (append_assoc d (x ∷ []) (snapshots_pushed cs)),
          sym (append_assoc h (summaries_of clock 0 x.pods) (summaries_pushed cs)),
        )
        (run-Holds p (d ++ x ∷ []) (h ++ summaries_of clock 0 x.pods) cs _
          (push-Holds p d h clock x s v))
  run-Holds p d h (drains ∷ cs) s v =
      run-Holds p d h cs _ (record { kept = v.kept; details = v.details; summaries = v.summaries })
  run-Holds p d h (requeues xs ∷ cs) s v =
      run-Holds p d h cs _ (record { kept = v.kept; details = v.details; summaries = v.summaries })

  -- After any calls on a new store the detail ring is the end of all snapshots pushed and the
  -- summary ring the end of all summaries pushed, each as long as its capacity allows, and one
  -- entry long at capacity 0; the profile is unchanged.
  pub run-new-Holds :
      (p : StoreProfile) (cs : List (Call F))
      → Holds p (snapshots_pushed cs) (summaries_pushed cs) (run cs (new p))
  unfolding new
  run-new-Holds p cs =
      run-Holds p [] [] cs (new p)
        (record { kept = refl; details = sym (drop-nil _); summaries = sym (drop-nil _) })
