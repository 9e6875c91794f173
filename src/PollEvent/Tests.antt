-- ===== src/PollEvent/Tests.antt =====
-- The theorems about the state word and the calls that race on it, at concrete calls.
use bbtools_coroutine.Base.{
  ℕ, ◌^◌, ◌<◌, ◌≤◌, ◌≡◌, ◌≢◌, refl, true, false, none, some, List, [], ◌∷◌, length, sum,
}
use bbtools_coroutine.PollEvent.State.{pending, triggering, pack, get_phase, get_flags, get-pack}
use bbtools_coroutine.PollEvent.Machine.{
  fresh, by_trigger, Call, trigger, trigger_round, regist, regist_arm, regist_listen, regist_armed,
  regist_track, commit_park, park_round, unregist, unregist_round, cancel_all, Answer, listens,
  step, step_at, run,
}
use bbtools_coroutine.PollEvent.Machine.Once.{completing, calling, Tells}
use bbtools_coroutine.PollEvent.Machine.Once.Race.{delivered, run-Tells, run-delivers}

get-pack_example :
    (get_phase (pack pending 264) ≡ some pending)
    × (get_flags (pack pending 264) ≡ 264)
    × (pack pending 264 < 2 ^ 24)
get-pack_example = get-pack pending 264

abbrev smooth : Answer
smooth = record {
  spurious = false;
  listen = listens;
  accepts = true;
  closing = false;
  create = none;
}

-- A registration, a commit, two triggers and a cancellation.
abbrev racing : List Call
racing = regist ∷ commit_park ∷ trigger by_trigger 8 ∷ trigger by_trigger 1 ∷ unregist ∷ []

abbrev at : ℕ → ℕ × Answer
at i = (i, smooth)

abbrev order : List (ℕ × Answer)
order =
    at 0
    ∷ at 0
    ∷ at 2
    ∷ at 0
    ∷ at 3
    ∷ at 0
    ∷ at 0
    ∷ at 1
    ∷ at 1
    ∷ at 4
    ∷ at 3
    ∷ at 2
    ∷ at 4
    ∷ at 2
    ∷ at 2
    ∷ at 2
    ∷ at 4
    ∷ at 3
    ∷ at 3
    ∷ at 2
    ∷ at 4
    ∷ at 3
    ∷ at 3
    ∷ at 3
    ∷ []

run-Tells_example :
    let (ds, e) = run order racing fresh in
    Tells e.word.phase e.word.flags e.won e.called (sum completing ds) (sum calling ds)
run-Tells_example = run-Tells racing order (refl, (refl, (refl, (refl, (refl, tt)))))

run-delivers_example :
    let e = (run order racing fresh).1 in
    (e.called ≡ delivered e.word.phase e.won) × (length e.won ≤ 1) × (e.word.phase ≢ triggering)
unfolding run step_at step trigger_round regist_arm regist_listen regist_armed regist_track
    park_round unregist_round cancel_all
run-delivers_example =
    run-delivers racing order (refl, (refl, (refl, (refl, (refl, tt)))))
      (refl, (refl, (refl, (refl, (refl, tt)))))
