-- ===== src/Threads/Dispatcher/Queue.antt =====
-- The tasks of the dispatcher (src/dispatcher.cpp) leave its list in the order in which they came.
use mathlib.Core.List.{append_assoc, append-nil}
use model_lib.Prelude.{
  ℕ, ◌≡◌, refl, ap, ap₂, sym, ◌∙◌, true, false, if◌then◌else◌, List, [], ◌∷◌, ◌++◌, map, arith,
  Bool-cases, inl, inr,
}
use model_lib.Prelude.All.{All}
use model_lib.Threads.Scheduler.{ThreadState, running, closing, terminated, is_running}
use model_lib.Threads.Dispatcher.{
  Task, Dispatcher, Outcome, ran, skipped, Command, adds, turns, closes, ends, add_task, execute,
  turn, flush_tasks, flush, stop, shutdown, step, run,
}

abbrev pub task_of : Outcome → Task
task_of (ran now t) = t
task_of (skipped now t) = t

-- The tasks that a command brings while the dispatcher is in a state, and the state behind it.
abbrev pub brings : Command → ThreadState → List Task
brings (adds t front) st = if is_running st then t ∷ [] else []
brings (turns now) st = []
brings closes st = []
brings (ends now) st = []

abbrev pub becomes : Command → ThreadState → ThreadState
becomes (adds t front) st = st
becomes (turns now) st = st
becomes closes st = closing
becomes (ends now) st = terminated

unfoldable pub accepted : List Command → ThreadState → List Task
accepted [] st = []
accepted (c ∷ cs) st = brings c st ++ accepted cs (becomes c st)

abbrev pub IsAtBack : Command → Type 0
IsAtBack (adds t front) = front ≡ false
IsAtBack (turns now) = Unit
IsAtBack closes = Unit
IsAtBack (ends now) = Unit

task_of-execute : (now : ℕ) (t : Task) → task_of (execute now t) ≡ t
unfolding execute
task_of-execute now t = ground arith

task_of-flush_tasks : (now : ℕ) (ts : List Task) → map task_of (flush_tasks now ts) ≡ ts
unfolding flush_tasks
task_of-flush_tasks now [] = refl
task_of-flush_tasks now (t ∷ ts) = ap (◌∷◌ t) (task_of-flush_tasks now ts)

step-becomes : (c : Command) (s : Dispatcher) → (step c s).1.thread_state ≡ becomes c s.thread_state
unfolding step add_task turn stop shutdown flush
step-becomes (adds t front) s = ground arith
step-becomes (turns now) s = ground arith
step-becomes closes s = refl
step-becomes (ends now) s = refl

turn-order :
    (now : ℕ) (st : ThreadState) (ts : List Task)
    → let r = turn now (record { thread_state = st; task_list = ts }) in
      map task_of r.0 ++ r.1.task_list ≡ ts ++ []
unfolding turn
turn-order now st [] = refl
turn-order now terminated (t ∷ ts) = sym (append-nil (t ∷ ts))
turn-order now running (t ∷ ts) = ap₂ (◌∷◌) (task_of-execute now t) (sym (append-nil ts))
turn-order now closing (t ∷ ts) = ap₂ (◌∷◌) (task_of-execute now t) (sym (append-nil ts))

step-order :
    (c : Command) (s : Dispatcher)
    → IsAtBack c
    → map task_of (step c s).0 ++ (step c s).1.task_list ≡ s.task_list ++ brings c s.thread_state
unfolding step add_task stop shutdown flush
step-order (adds t true) s h = absurd (ground (arith, h))
step-order (adds t false) s h = elim (Bool-cases (is_running s.thread_state)) [
  | inl e ↦ rw e refl
  | inr e ↦ rw e (sym (append-nil s.task_list))
]
step-order (turns now) s h = turn-order now s.thread_state s.task_list
step-order closes s h = sym (append-nil s.task_list)
step-order (ends now) s h = ap (λ ts. ts ++ []) (task_of-flush_tasks now s.task_list)

map-append : (xs ys : List Outcome) → map task_of (xs ++ ys) ≡ map task_of xs ++ map task_of ys
map-append [] ys = refl
map-append (x ∷ xs) ys = ap (◌∷◌ (task_of x)) (map-append xs ys)

-- First in, first out: when no task is put in front, the tasks that a run takes from the list and
-- those that it leaves there, one after the other, are those that were there and then those that
-- came while the dispatcher was running, in that order and none of them twice or lost.
pub run-order :
    (cs : List Command) (s : Dispatcher)
    → All IsAtBack cs
    → map task_of (run cs s).0 ++ (run cs s).1.task_list ≡ s.task_list ++ accepted cs s.thread_state
unfolding run accepted
run-order [] s h = sym (append-nil s.task_list)
run-order (c ∷ cs) s h =
    let first = step c s in
    let later = run cs first.1 in
    ap (λ ts. ts ++ later.1.task_list) (map-append first.0 later.0)
    ∙ append_assoc (map task_of first.0) (map task_of later.0) later.1.task_list
    ∙ ap (λ ts. map task_of first.0 ++ ts) (run-order cs first.1 h.1)
    ∙ sym (append_assoc (map task_of first.0) first.1.task_list _)
    ∙ ap₂ (◌++◌) (step-order c s h.0) (ap (accepted cs) (step-becomes c s))
    ∙ append_assoc s.task_list (brings c s.thread_state) _

push-turn :
    (now : ℕ) (t : Task) (st : ThreadState) (ts : List Task)
    → is_running st ≡ true
    → let s : Dispatcher = record { thread_state = st; task_list = ts } in
      turn now (add_task t true s).1 ≡ (execute now t ∷ [], s)
unfolding turn add_task
push-turn now t running ts h = refl
push-turn now t closing ts h = absurd (ground (arith, h))
push-turn now t terminated ts h = absurd (ground (arith, h))

-- A task that is put in front of a running dispatcher's list is the one that the next turn takes,
-- and the turn leaves the list as it was before.
turn-add_task :
    (now : ℕ) (t : Task) (s : Dispatcher)
    → is_running s.thread_state ≡ true
    → turn now (add_task t true s).1 ≡ (execute now t ∷ [], s)
turn-add_task now t s h = push-turn now t s.thread_state s.task_list h
