-- ===== src/Threads/Scheduler/Tests.antt =====
-- Tests of the scheduler, and the theorems at concrete inputs.
use model_lib.Prelude.{ℕ, ◌≤◌, ◌≡◌, ◌≢◌, refl, if◌then◌else◌, none, some, List, [], ◌∷◌, arith}
use model_lib.Prelude.All.{All}
use model_lib.Threads.Scheduler.{
  Scheduler, SchedulerTask, Command, adds, stops, expires, run, step, stop_event, expire, contains,
  erase, take_at, running, none_before, pop_event, add_event, create_scheduler_task, next_event,
  insert,
}
use model_lib.Threads.Scheduler.Once.{
  IsBounded, DistinctIds, run-DistinctIds, stop_event-never_runs,
}
use model_lib.Threads.Scheduler.Pending.{expire_progress}

abbrev soon : SchedulerTask
soon = record { event_id = 2; cycle = 100; action = 7 }

abbrev late : SchedulerTask
late = record { event_id = 1; cycle = 300; action = 8 }

abbrev busy : Scheduler
busy = record {
  thread_state = running;
  last_event = 2;
  event_ids = 2 ∷ 1 ∷ [];
  event_list = late ∷ soon ∷ [];
}

abbrev script : List Command
script = adds 50 10 9 ∷ expires 2 120 ∷ stops 1 ∷ expires 1 400 ∷ expires 0 400 ∷ []

busy-IsBounded : IsBounded busy
unfolding contains
busy-IsBounded a e = ground (arith, e)

run-script : run script busy ≡ soon ∷ record { event_id = 3; cycle = 100; action = 9 } ∷ []
unfolding run step expire contains add_event create_scheduler_task next_event insert erase
    stop_event take_at none_before pop_event
run-script = refl

run-DistinctIds_example : DistinctIds (run script busy)
run-DistinctIds_example = run-DistinctIds script busy busy-IsBounded (omega arith)

stop_event-never_runs_example :
    ((stop_event 2 busy).0 ≡ contains 2 (2 ∷ 1 ∷ []))
    × All (λ t. t.event_id ≢ 2) (run script (stop_event 2 busy).1)
stop_event-never_runs_example =
    stop_event-never_runs 2 script busy busy-IsBounded (omega arith) (omega arith) (omega arith)

expire_progress_example :
    (i : ℕ) × (top : SchedulerTask) × (rest : List SchedulerTask) × (take_at i (late ∷ soon ∷ [])
      ≡ some (top, rest))
    × All (λ u. top.cycle ≤ u.cycle) (late ∷ soon ∷ [])
    × ((now : ℕ)
        → top.cycle ≤ now
        → ((expire i now busy).1.event_list ≡ rest)
          × ((expire i now busy).0
              ≡ (if contains top.event_id (2 ∷ 1 ∷ []) then some top else none)))
expire_progress_example = expire_progress busy late (soon ∷ []) refl refl
