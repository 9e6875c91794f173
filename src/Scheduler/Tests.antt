-- ===== src/Scheduler/Tests.antt =====
-- The scheduler at concrete runs.
use bbtools_coroutine.Base.{
  ℕ, ◌*◌, ◌≤◌, ◌<◌, ◌≡◌, refl, Bool, true, false, none, some, List, [], ◌∷◌, length, sum, All, ◌==◌,
  if◌then◌else◌,
}
use bbtools_coroutine.Scheduler.{
  GlobalConfig, ScalingBounds, numbers_refused, samples_refused, thresholds_refused, resolve_bounds,
}
use bbtools_coroutine.Scheduler.Resize.{
  Batch, comes_up, ids, prepare_expansion, find_worker, candidates, select, count_outstanding,
  contains, without, commit_selected, commit_shrink, set_target, apply_target, reset_samples,
  accepted, set_processer_num,
}
use bbtools_coroutine.Scheduler.Ticks.{
  Answers, advance_hits, claim_auto_sample, sample_load, accumulate_hits, is_up, is_down, grown,
  scale_up, shrunk, scale_down, decide, sampled, claimed_tick, tick,
}
use bbtools_coroutine.Scheduler.Scaling.{
  find_reapable, erase_worker, reap_found, reap_join, Move, requests, begins_tick, goes_on, binds,
  exits, ends, go_on, request, step, step_at, run, start,
}
use bbtools_coroutine.Scheduler.Ids.{Rises}
use bbtools_coroutine.Scheduler.Rounds.{load_balance, try_work_steal}
use bbtools_coroutine.Scheduler.Rounds.Finds.{Steals, rounds-Find}
use bbtools_coroutine.Scheduler.Roster.{active_ids, Pinned}
use bbtools_coroutine.Scheduler.Scaling.Safety.{leading}
use bbtools_coroutine.Scheduler.Scaling.Safety.Runs.{threads, run-Sized, run-Sustained}

abbrev two_to_four : GlobalConfig
two_to_four = record {
  static_thread_num = 2;
  auto_scale = true;
  min_num = 1;
  max_num = 4;
  scale_interval_ms = 100;
  scale_up_samples = 2;
  scale_down_samples = 3;
  scale_step = 1;
  scale_up_busy_percent = 80;
  scale_down_busy_percent = 20;
  scale_up_queue_watermark = 1;
  scale_down_queue_watermark = 0;
}

abbrev bounds : ScalingBounds
bounds = record { initial = 2; lowest = 1; highest = 4 }

resolve_bounds_example : resolve_bounds two_to_four ≡ some bounds
unfolding resolve_bounds numbers_refused samples_refused thresholds_refused
resolve_bounds_example = refl

-- Three coroutines wait in the global queues; the time is given in milliseconds.
abbrev at : ℕ → Batch → Answers
at ms batch = record {
  self = none;
  has_memory = true;
  batch = batch;
  now = ms * 1000000;
  global_sizes = 1 ∷ 2 ∷ [];
  executable_num = λ n. 0;
  is_busy = λ n. false;
  joins_well = true;
}

-- Two ticks see a long queue, of which the second adds a worker; a driver is bound to the first worker; a request for one
-- worker retires the two others, of which one exits, ends and is joined.
abbrev grows_and_shrinks : List (ℕ × Move × Answers)
grows_and_shrinks =
    (0, begins_tick, at 100 comes_up)
    ∷ (0, goes_on, at 100 comes_up)
    ∷ (0, goes_on, at 100 comes_up)
    ∷ (0, begins_tick, at 200 comes_up)
    ∷ (0, goes_on, at 200 comes_up)
    ∷ (0, binds 1, at 210 comes_up)
    ∷ (1, requests 1, at 220 comes_up)
    ∷ (0, exits 2, at 230 comes_up)
    ∷ (0, ends 2, at 230 comes_up)
    ∷ (1, goes_on, at 240 comes_up)
    ∷ (1, goes_on, at 240 comes_up)
    ∷ (1, goes_on, at 240 comes_up)
    ∷ []

grows_and_shrinks-run :
    let s = (run two_to_four bounds grows_and_shrinks (threads 2) (start two_to_four bounds 0)).1 in
    (s.active_snapshot ≡ 1 ∷ [])
    × (ids s.workers ≡ 1 ∷ 3 ∷ [])
    × (s.target_num ≡ 1)
    × (s.joined_ids ≡ 2 ∷ [])
unfolding run step_at step go_on start tick claim_auto_sample claimed_tick sample_load sampled
    accumulate_hits advance_hits decide scale_up scale_down grown shrunk apply_target set_target
    prepare_expansion commit_shrink commit_selected find_worker candidates select without
    count_outstanding sum request accepted set_processer_num reset_samples find_reapable reap_found
    reap_join erase_worker
grows_and_shrinks-run = (refl, refl, refl, refl)

run-Sized_example :
    let (ss, s) =
      run two_to_four bounds grows_and_shrinks (threads 2) (start two_to_four bounds 0) in
    (s.target_num ≡ length s.active_snapshot)
    × (1 ≤ s.target_num)
    × (1 ≤ s.target_num)
    × (s.target_num ≤ 4)
    × (s.active_snapshot ≡ active_ids s.workers)
    × (s.processer_map ≡ s.active_snapshot)
    × Rises 0 (ids s.workers)
    × (count_outstanding s.workers ≤ 32)
    × All Pinned s.workers
run-Sized_example = run-Sized two_to_four resolve_bounds_example 0 2 grows_and_shrinks

run-Sustained_example :
    let s = (run two_to_four bounds grows_and_shrinks (threads 2) (start two_to_four bounds 0)).1 in
    let s' = (tick two_to_four bounds (at 500 comes_up) s).1 in
    (s.target_num < s'.target_num → 2 ≤ leading (is_up two_to_four) s'.samples)
    × (s'.target_num < s.target_num → 3 ≤ leading (is_down two_to_four) s'.samples)
run-Sustained_example =
    run-Sustained two_to_four resolve_bounds_example 0 2 grows_and_shrinks (at 500 comes_up)

-- Four workers, of which only the one with id 4 admits a coroutine and has work; the counter is about to wrap around.
abbrev four : List ℕ
four = 1 ∷ 2 ∷ 4 ∷ 7 ∷ []

abbrev is_open : ℕ → Bool
is_open x = x == 4

abbrev all_active : ℕ → Bool
all_active x = true

abbrev gives : ℕ → ℕ
gives x = if x == 4 then 3 else 0

rounds-Find_example :
    ((p : ℕ)
      → load_balance is_open 4294967295 four ≡ some p
      → (contains four p ≡ true) × (is_open p ≡ true))
    × (load_balance is_open 4294967295 four ≡ none → All (λ x. is_open x ≡ false) four)
    × Steals all_active gives 1 4294967295 four (try_work_steal 1 all_active gives 4294967295 four)
rounds-Find_example = rounds-Find is_open all_active gives 1 4294967295 four
