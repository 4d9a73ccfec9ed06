-- ===== src/Threads/Dispatcher.antt =====
-- src/dispatcher.h and dispatcher.cpp: `Dispatcher`. Each function is what one thread does while it
-- holds `m_taskLock`, and the task that it takes; a run is any sequence of such sections.
pub mod Queue
mod Tests
use model_lib.Prelude.{ℕ, ◌+◌, Bool, true, false, ltb, ◌==◌, if◌then◌else◌, List, [], ◌∷◌, ◌++◌}
use model_lib.Threads.Scheduler.{
  ThreadState, running, closing, terminated, is_running, is_terminated,
}

-- `action` stands for the function object; the expiration is a time point, 0 for none.
pub record Task : Type 0 where
  pub expiration : ℕ
  pub action : ℕ

-- `createTask` without an expiration, and with one of `ms` milliseconds from `now`
unfoldable pub create_task : ℕ → Task
create_task action = record { expiration = 0; action = action }

unfoldable pub create_expiring_task : ℕ → ℕ → ℕ → Task
create_expiring_task now ms action = record { expiration = now + ms; action = action }

unfoldable pub has_expired : ℕ → Task → Bool
has_expired now t = if t.expiration == 0 then false else ltb t.expiration now

pub record Dispatcher : Type 0 where
  pub thread_state : ThreadState
  pub task_list : List Task

abbrev pub is_nil : List Task → Bool
is_nil [] = true
is_nil (t ∷ ts) = false

-- Whether the waiting thread is signalled, and the new state.
unfoldable pub add_task : Task → Bool → Dispatcher → Bool × Dispatcher
add_task task front s =
    if is_running s.thread_state
    then (
      is_nil s.task_list,
      record s { task_list = if front then task ∷ s.task_list else s.task_list ++ task ∷ [] },
    )
    else (false, s)

-- What became of a task that was taken from the list at a time: executed, or deleted unexecuted.
pub data Outcome : Type 0 where
  ran skipped : ℕ → Task → Outcome

unfoldable pub execute : ℕ → Task → Outcome
execute now task = if has_expired now task then skipped now task else ran now task

-- A turn of `threadMain` at the time `now`. On an empty list the thread waits, which is no turn.
unfoldable pub turn : ℕ → Dispatcher → List Outcome × Dispatcher
turn now s = elim s.task_list [
  | [] ↦ ([], s)
  | task ∷ rest ↦
      if is_terminated s.thread_state
      then ([], s)
      else (execute now task ∷ [], record s { task_list = rest })
]

unfoldable pub flush_tasks : ℕ → List Task → List Outcome
flush_tasks now [] = []
flush_tasks now (task ∷ tasks) = ran now task ∷ flush_tasks now tasks

unfoldable pub flush : ℕ → Dispatcher → List Outcome × Dispatcher
flush now s = (flush_tasks now s.task_list, record s { task_list = [] })

unfoldable pub stop : Dispatcher → Dispatcher
stop s = record s { thread_state = closing }

unfoldable pub shutdown : ℕ → Dispatcher → List Outcome × Dispatcher
shutdown now s = flush now (record s { thread_state = terminated })

-- What the threads may do, one locked section after another.
pub data Command : Type 0 where
  adds : Task → Bool → Command
  turns : ℕ → Command
  closes : Command
  ends : ℕ → Command

unfoldable pub step : Command → Dispatcher → List Outcome × Dispatcher
step (adds task front) s = ([], (add_task task front s).1)
step (turns now) s = turn now s
step closes s = ([], stop s)
step (ends now) s = shutdown now s

-- The outcomes of a run in order, and the state behind it.
unfoldable pub run : List Command → Dispatcher → List Outcome × Dispatcher
run [] s = ([], s)
run (c ∷ cs) s = let first = step c s in let later = run cs first.1 in (first.0 ++ later.0, later.1)
