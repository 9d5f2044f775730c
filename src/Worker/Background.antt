-- ===== src/Worker/Background.antt =====
-- The two loops that cmd/worker/main.go runs beside the queue's server: the analysis, once at the
-- start and each day, and each hour the deletion of old idempotency keys. What they return is only
-- logged.
use vibls_assignment.Common.{
  ◌+◌, ◌-◌, ◌≡◌, refl, ap, ◌∙◌, inl, inr, Bool, true, not, ◌&&◌, List, [], ◌∷◌, arith, ltb,
  Bool-cases, keep,
}
use vibls_assignment.Job.{Time}
use vibls_assignment.Store.Rows.{IdempotencyKey, Tables, Platform, World, calm}
use vibls_assignment.Store.Listing.{list_completed_jobs}
use vibls_assignment.Store.Keys.{delete_expired_idempotency_keys}
use vibls_assignment.Learning.{Floating, analyze_completed_jobs}
use vibls_assignment.Learning.Scheduler.{hours, run_analysis}

-- What one of the tickers fires, at an instant of the worker's clock.
pub data Tick : Type 0 where
  analysis_tick : Time → Tick
  cleanup_tick : Time → Tick

keep-keep {ℓ} :
    {A : Type ℓ} (f g : A → Bool) (xs : List A) → keep f (keep g xs) ≡ keep (λ x. g x && f x) xs
keep-keep f g [] = refl
keep-keep f g (x ∷ xs) = elim (Bool-cases (g x)) [
  | inl kept ↦ rw kept (ground (arith, keep-keep f g xs))
  | inr gone ↦ rw gone (keep-keep f g xs)
]

keep_all {ℓ} : {A : Type ℓ} (xs : List A) → keep (λ x. true) xs ≡ xs
keep_all [] = refl
keep_all (x ∷ xs) = ap (λ (r : List _). x ∷ r) (keep_all xs)

keep_same {ℓ} :
    {A : Type ℓ} (f g : A → Bool) (xs : List A) → ((x : A) → f x ≡ g x) → keep f xs ≡ keep g xs
keep_same f g [] h = refl
keep_same f g (x ∷ xs) h = rw (h x, keep_same f g xs h) refl

module _ (fl : Floating) (p : Platform) where
  unfoldable pub on_tick : Tick → World → World
  on_tick (analysis_tick now) w = (run_analysis fl p now w).1
  on_tick (cleanup_tick now) w = (delete_expired_idempotency_keys now (hours 24) w).1

  unfoldable pub run_ticks : List Tick → World → World
  unfolding on_tick
  run_ticks [] w = w
  run_ticks (t ∷ ts) w = run_ticks ts (on_tick t w)

  -- A key outlives a tick, and a list of them.
  abbrev outlives : Tick → IdempotencyKey → Bool
  outlives (analysis_tick now) k = true
  outlives (cleanup_tick now) k = not (ltb (k.created_at + hours 24) now)

  abbrev pub outlives_all : List Tick → IdempotencyKey → Bool
  outlives_all [] k = true
  outlives_all (t ∷ ts) k = outlives t k && outlives_all ts k

  on_tick-calm :
      (tick : Tick) (t : Tables)
      → on_tick tick (calm t) ≡ calm (record t { keys = keep (outlives tick) t.keys })
  unfolding on_tick run_analysis analyze_completed_jobs list_completed_jobs
      delete_expired_idempotency_keys
  on_tick-calm (analysis_tick now) t = ground (arith, keep_all t.keys)
  on_tick-calm (cleanup_tick now) t =
      ap (λ (ks : List IdempotencyKey). calm (record t { keys = ks }))
        (keep_same (λ k. not (ltb k.created_at (now - hours 24))) (outlives (cleanup_tick now))
          t.keys (λ k. ground arith))

  -- Calm: whatever the tickers fire, in any order, the loops leave jobs and events alone and delete
  -- exactly the idempotency keys that are more than 24 hours old at a turn of the clean-up.
  pub run_ticks-calm :
      (ts : List Tick) (t : Tables)
      → run_ticks ts (calm t) ≡ calm (record t { keys = keep (outlives_all ts) t.keys })
  unfolding run_ticks
  run_ticks-calm [] t = rw (keep_all t.keys) refl
  run_ticks-calm (tick ∷ ts) t =
      ap (run_ticks ts) (on_tick-calm tick t)
      ∙ run_ticks-calm ts (record t { keys = keep (outlives tick) t.keys })
      ∙ ap (λ (ks : List IdempotencyKey). calm (record t { keys = ks }))
          (keep-keep (outlives_all ts) (outlives tick) t.keys)
