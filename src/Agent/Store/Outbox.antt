-- ===== src/Agent/Store/Outbox.antt =====
-- keck-agent/src/store/mod.rs: the outbox, which is filled, drained and put back.
use mathlib.Core.List.{append_assoc, append-nil, reverse-reverse, reverse-cons}
use keck.Base.{
  ℕ, suc, ◌+◌, ◌≡◌, refl, sym, ap, ◌∙◌, List, [], ◌∷◌, ◌++◌, arith, reverse, length, length-append,
}
use keck.Agent.Attribution.Types.{AttributionSnapshot, PodPower}
use keck.Agent.Store.{
  LocalStore, PodSummary, push_summaries, push, summaries_of, drain_outbox, requeue, push_front_all,
  push_bounded, detail_capacity,
}
use keck.Agent.Store.History.{Call, pushes, run}

push_front_all-append {ℓ} :
    {A : Type ℓ} (xs out : List A) → push_front_all xs out ≡ reverse xs ++ out
unfolding push_front_all
push_front_all-append [] out = refl
push_front_all-append (x ∷ xs) out =
    push_front_all-append xs (x ∷ out)
    ∙ sym (append_assoc (reverse xs) (x ∷ []) out)
    ∙ ap (λ r. r ++ out) (sym (reverse-cons x xs))

length-summaries_of :
    (clock : ℕ → ℕ) (n : ℕ) (ps : List PodPower) → length (summaries_of clock n ps) ≡ length ps
unfolding summaries_of
length-summaries_of clock n [] = refl
length-summaries_of clock n (p ∷ ps) = ap suc (length-summaries_of clock (suc n) ps)

module _ {ℓ} {F : Type ℓ} where
  requeue_lem :
      (xs : List PodSummary) (s : LocalStore F)
      → requeue xs s ≡ record s { outbox = xs ++ s.outbox }
  unfolding requeue
  requeue_lem xs s = rw (push_front_all-append (reverse xs) s.outbox, reverse-reverse xs)

  -- A store with more in front of its outbox.
  abbrev ahead : List PodSummary → LocalStore F → LocalStore F
  ahead xs s = record s { outbox = xs ++ s.outbox }

  push_summaries-ahead :
      (xs ys : List PodSummary) (s : LocalStore F)
      → push_summaries ys (ahead xs s) ≡ ahead xs (push_summaries ys s)
  unfolding push_summaries
  push_summaries-ahead xs [] s = refl
  push_summaries-ahead xs (y ∷ ys) s =
      rw (append_assoc xs s.outbox (y ∷ [])) (push_summaries-ahead xs ys _)

  abbrev pub all_pushes : List ((ℕ → ℕ) × AttributionSnapshot F) → List (Call F)
  all_pushes [] = []
  all_pushes ((clock, x) ∷ cs) = pushes clock x ∷ all_pushes cs

  run-ahead :
      (xs : List PodSummary) (cs : List ((ℕ → ℕ) × AttributionSnapshot F)) (s : LocalStore F)
      → run (all_pushes cs) (ahead xs s) ≡ ahead xs (run (all_pushes cs) s)
  unfolding push
  run-ahead xs [] s = refl
  run-ahead xs ((clock, x) ∷ cs) s =
      ap (run (all_pushes cs)) (
        push_summaries-ahead xs (summaries_of clock 0 x.pods)
          (record s { detail_ring = push_bounded (detail_capacity s.profile) s.detail_ring x }))
      ∙ run-ahead xs cs (push clock x s)

  -- A batch that was drained and could not be sent goes back as if it had never been drained: the
  -- whole store, after any snapshots pushed meanwhile, is the one that those pushes alone make.
  pub requeue-drain_outbox :
      (s : LocalStore F) (cs : List ((ℕ → ℕ) × AttributionSnapshot F))
      → let (batch, t) = drain_outbox s in
        requeue batch (run (all_pushes cs) t) ≡ run (all_pushes cs) s
  unfolding drain_outbox
  requeue-drain_outbox s cs =
      requeue_lem s.outbox _
      ∙ sym (run-ahead s.outbox cs (record s { outbox = [] }))
      ∙ ap (λ out. run (all_pushes cs) (record s { outbox = out })) (append-nil s.outbox)

  outbox-push_summaries :
      (xs : List PodSummary) (s : LocalStore F) → (push_summaries xs s).outbox ≡ s.outbox ++ xs
  unfolding push_summaries
  outbox-push_summaries [] s = sym (append-nil s.outbox)
  outbox-push_summaries (x ∷ xs) s = outbox-push_summaries xs _ ∙ append_assoc s.outbox (x ∷ []) xs

  abbrev pub pods_pushed : List ((ℕ → ℕ) × AttributionSnapshot F) → ℕ
  pods_pushed [] = 0
  pods_pushed ((clock, x) ∷ cs) = length x.pods + pods_pushed cs

  -- Pushes without a drain make the outbox longer by every pod of every snapshot: no capacity of
  -- the profile bounds it.
  pub length-outbox :
      (cs : List ((ℕ → ℕ) × AttributionSnapshot F)) (s : LocalStore F)
      → length (run (all_pushes cs) s).outbox ≡ length s.outbox + pods_pushed cs
  unfolding push
  length-outbox [] s = omega arith
  length-outbox ((clock, x) ∷ cs) s = omega (
    arith,
    length-outbox cs (push clock x s),
    ap length (
        outbox-push_summaries (summaries_of clock 0 x.pods)
          (record s { detail_ring = push_bounded (detail_capacity s.profile) s.detail_ring x })),
    length-append s.outbox (summaries_of clock 0 x.pods),
    length-summaries_of clock 0 x.pods,
  )
