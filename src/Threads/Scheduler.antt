-- ===== src/Threads/Scheduler.antt =====
-- src/scheduler.h and scheduler.cpp: `Scheduler`. Each function is what one thread does while it
-- holds `m_eventLock`; a run is any sequence of such sections.
pub mod Once
pub mod Pending
mod Tests
use model_lib.Prelude.{
  ℕ, zero, suc, ◌+◌, Bool, true, false, ◌&&◌, ◌||◌, not, ltb, leb, ◌==◌, if◌then◌else◌, Option,
  none, some, List, [], ◌∷◌, ◌++◌,
}

-- `ThreadState` of enums.h
pub data ThreadState : Type 0 where
  running closing terminated : ThreadState

abbrev pub is_running : ThreadState → Bool
is_running running = true
is_running closing = false
is_running terminated = false

abbrev pub is_terminated : ThreadState → Bool
is_terminated running = false
is_terminated closing = false
is_terminated terminated = true

-- `action` stands for the function object, `cycle` for the time point that `getCycle` returns.
pub record SchedulerTask : Type 0 where
  pub event_id : ℕ
  pub cycle : ℕ
  pub action : ℕ

abbrev pub scheduler_minticks : ℕ
scheduler_minticks = 50

-- `createSchedulerTask` at the time `now`
unfoldable pub create_scheduler_task : ℕ → ℕ → ℕ → SchedulerTask
create_scheduler_task now delay action = record {
  event_id = 0;
  cycle = now + (if ltb delay scheduler_minticks then scheduler_minticks else delay);
  action = action;
}

-- `m_eventIds` is a set, and `m_eventList` a priority queue: a list of which only a task with the
-- smallest cycle is ever taken.
pub record Scheduler : Type 0 where
  pub thread_state : ThreadState
  pub last_event : ℕ
  pub event_ids : List ℕ
  pub event_list : List SchedulerTask

-- `find`, `insert` and `erase` of the set
unfoldable pub contains : ℕ → List ℕ → Bool
contains a [] = false
contains a (x ∷ xs) = x == a || contains a xs

unfoldable pub insert : ℕ → List ℕ → List ℕ
unfolding contains
insert a xs = if contains a xs then xs else a ∷ xs

unfoldable pub erase : ℕ → List ℕ → List ℕ
erase a [] = []
erase a (x ∷ xs) = if x == a then erase a xs else x ∷ erase a xs

-- A fresh identifier; behind 0xFFFFFFFF comes 1.
unfoldable pub next_event : ℕ → ℕ
next_event last = (if leb 0xFFFFFFFF last then 0 else last) + 1

-- The identifier that `addEvent` returns, and the new state. The signal to the waiting thread is not
-- part of the state.
unfoldable pub add_event : SchedulerTask → Scheduler → ℕ × Scheduler
add_event task s =
    if is_running s.thread_state
    then (let id = if task.event_id == 0 then next_event s.last_event else task.event_id in
        (
          id,
          record s {
            last_event = if task.event_id == 0 then next_event s.last_event else s.last_event;
            event_ids = insert id s.event_ids;
            event_list = record task { event_id = id } ∷ s.event_list;
          },
        ))
    else (task.event_id, s)

unfoldable pub stop_event : ℕ → Scheduler → Bool × Scheduler
stop_event event_id s =
    if event_id == 0
    then (false, s)
    else if contains event_id s.event_ids
    then (true, record s { event_ids = erase event_id s.event_ids })
    else (false, s)

unfoldable pub stop : Scheduler → Scheduler
stop s = record s { thread_state = closing }

unfoldable pub shutdown : Scheduler → Scheduler
shutdown s = record s { thread_state = terminated; event_ids = []; event_list = [] }

-- A task may be on top when no other one is due earlier; which of several is, the queue decides.
unfoldable pub none_before : ℕ → List SchedulerTask → Bool
none_before cycle [] = true
none_before cycle (t ∷ ts) = leb cycle t.cycle && none_before cycle ts

-- The task at a place of the queue, and the rest.
unfoldable pub take_at : ℕ → List SchedulerTask → Option (SchedulerTask × List SchedulerTask)
take_at i [] = none
take_at zero (t ∷ ts) = some (t, ts)
take_at (suc i) (t ∷ ts) = elim (take_at i ts) [ none ↦ none | some (u, rest) ↦ some (u, t ∷ rest) ]

-- What is left when the top has been popped: it goes to the dispatcher unless it was stopped.
unfoldable pub pop_event :
    SchedulerTask → List SchedulerTask → Scheduler → Option SchedulerTask × Scheduler
pop_event task rest s =
    if contains task.event_id s.event_ids
    then (some task, record s { event_ids = erase task.event_id s.event_ids; event_list = rest })
    else (none, record s { event_list = rest })

-- A turn of `threadMain` at the time `now`, where `i` is the place of the queue's top: it times out
-- when the top is due.
unfoldable pub expire : ℕ → ℕ → Scheduler → Option SchedulerTask × Scheduler
expire i now s = elim (take_at i s.event_list) [
  | none ↦ (none, s)
  | some (task, rest) ↦
      if none_before task.cycle s.event_list
        && leb task.cycle now
        && not (is_terminated s.thread_state)
      then pop_event task rest s
      else (none, s)
]

-- What the threads may do, one locked section after another.
pub data Command : Type 0 where
  adds : ℕ → ℕ → ℕ → Command
  stops : ℕ → Command
  expires : ℕ → ℕ → Command
  closes ends : Command

unfoldable pub step : Command → Scheduler → Option SchedulerTask × Scheduler
step (adds now delay action) s = (none, (add_event (create_scheduler_task now delay action) s).1)
step (stops event_id) s = (none, (stop_event event_id s).1)
step (expires i now) s = expire i now s
step closes s = (none, stop s)
step ends s = (none, shutdown s)

abbrev pub emit : Option SchedulerTask → List SchedulerTask → List SchedulerTask
emit none ts = ts
emit (some t) ts = t ∷ ts

-- The tasks that a run hands to the dispatcher, in order.
unfoldable pub run : List Command → Scheduler → List SchedulerTask
run [] s = []
run (c ∷ cs) s = emit (step c s).0 (run cs (step c s).1)
