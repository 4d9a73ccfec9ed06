-- ===== src/Threads/Dispatcher/Tests.antt =====
-- Tests of the dispatcher, and the theorems at concrete inputs.
use model_lib.Prelude.{◌≡◌, refl, false, List, [], ◌∷◌, ◌++◌, map}
use model_lib.Threads.Scheduler.{running}
use model_lib.Threads.Dispatcher.{
  Task, Dispatcher, ran, skipped, Command, adds, turns, closes, ends, add_task, execute,
  has_expired, turn, flush_tasks, flush, stop, shutdown, step, run, create_task,
  create_expiring_task,
}
use model_lib.Threads.Dispatcher.Queue.{accepted, task_of, run-order}

abbrev move : Task
move = record { expiration = 0; action = 1 }

abbrev speak : Task
speak = record { expiration = 2100; action = 2 }

abbrev logout : Task
logout = record { expiration = 0; action = 3 }

abbrev started : Dispatcher
started = record { thread_state = running; task_list = move ∷ [] }

abbrev script : List Command
script =
    adds speak false
    ∷ turns 2000
    ∷ turns 2200
    ∷ adds logout false
    ∷ closes
    ∷ adds move false
    ∷ ends 2300
    ∷ []

run-script : (run script started).0 ≡ ran 2000 move ∷ skipped 2200 speak ∷ ran 2300 logout ∷ []
unfolding run step add_task turn execute has_expired flush flush_tasks stop shutdown
run-script = refl

create_tasks : (create_task 1 ∷ create_expiring_task 100 2000 2 ∷ []) ≡ (move ∷ speak ∷ [])
unfolding create_task create_expiring_task
create_tasks = refl

run-order_example :
    map task_of (run script started).0 ++ (run script started).1.task_list
    ≡ move ∷ accepted script running
run-order_example = run-order script started (refl, (tt, (tt, (refl, (tt, (refl, (tt, tt)))))))
