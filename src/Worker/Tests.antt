-- ===== src/Worker/Tests.antt =====
-- The worker on concrete inputs: one thread that calls `init`, a submit that is answered and one that
-- times out, and a pool.
use fastapi_turbo.Prelude.{
  ℕ, ◌≤◌, ◌≡◌, ◌≢◌, refl, ◌⊎◌, true, false, String, [], ◌∷◌, Option, none, some, arith, length,
}
use fastapi_turbo.Worker.Init.{
  World, Pc, at_lock, inside, left, at, start, Reach-one_loop, Reach-left,
}
use fastapi_turbo.Worker.Init as Init
use fastapi_turbo.Worker.Submit.{
  Outcome, value, Submit, waiting, flagged, timed_out, got, submitted, no_task, running, done,
  keeps_event, Reach-answer, Reach-cancelled, Reach-not_stranded,
}
use fastapi_turbo.Worker.Submit as Submit
use fastapi_turbo.Worker.Pool.{
  acquire, release, warm, at_init, use_pool, acquire_event, release_event, use_pool-bounded,
  acquire_event-release_event,
}
use fastapi_turbo.Worker.Timeout.{
  null, seconds, of_current, submit_timeout, submit_timeout-isolated,
}

-- Thread 0 misses the check, takes the lock, misses again, starts the worker and finds its loop.
abbrev missed : World
missed = record start { pc = at start 0 at_lock }

abbrev locked : World
locked = record missed { lock = Init.held 0 Init.rechecking; pc = at missed 0 inside }

abbrev starting : World
starting = record locked { lock = Init.held 0 Init.waiting; starting = 1 }

abbrev published : World
published = record starting { starting = 0; loop = true; loops_started = 1 }

abbrev up : World
up = record published { lock = Init.free; pc = at published 0 left }

up-Reach : Init.Reach true up
up-Reach =
    Init.next
      (Init.next
        (Init.next
          (Init.next (Init.next Init.here (Init.check_miss 0 refl refl)) (Init.acquire 0 refl refl))
          (Init.recheck_miss 0 refl refl))
        (Init.publish 0 refl))
      (Init.ready 0 refl refl)

one_loop_example : up.loops_started ≤ 1
one_loop_example = Reach-one_loop up up-Reach

left_example : (up.loop ≡ true) × (up.loops_started ≡ 1)
left_example = Reach-left up 0 up-Reach refl

-- The task ends in its first step, and the caller wakes with its value.
abbrev completed : Submit ℕ ℕ
completed = record submitted {
  queue = [];
  task = done;
  box = some (value 7);
  ev = true;
  loop = Submit.checking;
}

abbrev checked : Submit ℕ ℕ
checked = record completed { loop = Submit.idle }

abbrev answered : Submit ℕ ℕ
answered = record checked { caller = got (value 7); pooled = true }

checked-Reach : Submit.Reach checked
checked-Reach =
    Submit.next (Submit.next Submit.here (Submit.kickoff_completes [] (value 7) refl refl refl))
      (Submit.recheck refl)

answer_example :
    (answered.box ≡ some (value 7))
    × (answered.pooled ≡ keeps_event {V = ℕ} {E = ℕ} (value 7))
    × (answered.task ≡ done)
    × (answered.queue ≡ [])
answer_example =
    Reach-answer answered (value 7)
      (Submit.next checked-Reach (Submit.wake (value 7) refl refl refl)) refl

not_stranded_example :
    ((checked.ev ≡ true) × (checked.box ≢ none))
    ⊎ ((checked.ev ≡ false) × (checked.task ≡ running false))
not_stranded_example = Reach-not_stranded checked checked-Reach refl refl

-- The task runs on, the caller times out, and the loop then runs the cancellation.
abbrev begun : Submit ℕ ℕ
begun = record submitted { queue = []; task = running false; loop = Submit.checking }

abbrev given_up : Submit ℕ ℕ
given_up = record begun { caller = flagged; cancel_requested = true }

abbrev asked : Submit ℕ ℕ
asked = record given_up { caller = timed_out; queue = Submit.cancel_in_box ∷ [] }

abbrev rechecked : Submit ℕ ℕ
rechecked = record asked { task = running true; loop = Submit.idle }

abbrev cancelled : Submit ℕ ℕ
cancelled = record rechecked { queue = [] }

cancelled-Reach : Submit.Reach cancelled
cancelled-Reach =
    Submit.next
      (Submit.next
        (Submit.next
          (Submit.next
            (Submit.next (Submit.next Submit.here (Submit.kickoff_starts [] refl refl refl))
              (Submit.time_out refl refl))
            (Submit.request_cancel refl))
          (Submit.schedule_cancel refl))
        (Submit.recheck refl))
      (Submit.cancels [] refl refl)

cancelled_example : cancelled.task ≢ running false
cancelled_example = Reach-cancelled cancelled cancelled-Reach refl refl

bounded_example :
    length (use_pool (acquire ∷ release 5 ∷ release 5 ∷ []) (warm 64 at_init)).events ≤ 128
bounded_example = use_pool-bounded (acquire ∷ release 5 ∷ release 5 ∷ [])

release_example : acquire_event (release_event 9 (warm 2 at_init)) ≡ (9, warm 2 at_init)
unfolding warm
release_example = acquire_event-release_event 9 (warm 2 at_init) (omega arith)

abbrev no_number : String → Option ℕ
no_number s = none

isolated_example :
    (submit_timeout no_number none (some "soon") (some null) (some (seconds 5))
      ≡ of_current no_number (some null))
    × (submit_timeout no_number none none (some null) (some (seconds 5))
        ≡ submit_timeout no_number none (some "soon") (some null) none)
isolated_example =
    submit_timeout-isolated no_number "soon" null (some (seconds 5)) none refl (λ e. cc)
