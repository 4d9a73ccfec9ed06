-- ===== src/Threads/Scheduler/Pending.antt =====
-- The order in which the scheduler's thread (src/scheduler.cpp) takes its events, and that it gets on.
use model_lib.Prelude.{
  ℕ, suc, ◌+◌, ◌≤◌, ◌≡◌, refl, true, false, leb, if◌then◌else◌, none, some, List, [], ◌∷◌, length,
  Bool-cases, inl, inr, arith,
}
use model_lib.Prelude.All.{All}
use model_lib.Threads.Scheduler.{
  Scheduler, SchedulerTask, contains, take_at, none_before, pop_event, expire, is_terminated,
}

none_before_sound :
    (c : ℕ) (ts : List SchedulerTask) → none_before c ts ≡ true → All (λ u. c ≤ u.cycle) ts
unfolding none_before
none_before_sound c [] h = tt
none_before_sound c (t ∷ ts) h = (ground (arith, h), none_before_sound c ts (ground (arith, h)))

none_before_mono :
    (c d : ℕ) (ts : List SchedulerTask) → c ≤ d → none_before d ts ≡ true → none_before c ts ≡ true
unfolding none_before
none_before_mono c d [] h k = refl
none_before_mono c d (t ∷ ts) h k = ground (arith, h, k, none_before_mono c d ts h)

-- The top of a queue: its place, the task there, and the others.
record Top (ts : List SchedulerTask) : Type 0 where
  place : ℕ
  task : SchedulerTask
  rest : List SchedulerTask
  taken : take_at place ts ≡ some (task, rest)
  first : none_before task.cycle ts ≡ true
  shorter : length rest + 1 ≡ length ts

find-Top : (t : SchedulerTask) (ts : List SchedulerTask) → Top (t ∷ ts)
find-Top t [] = record {
  place = 0;
  task = t;
  rest = [];
  taken = unfold take_at in refl;
  first = unfold none_before in ground arith;
  shorter = omega arith;
}
find-Top t (u ∷ us) = extend (find-Top u us)
  where
    extend : Top (u ∷ us) → Top (t ∷ u ∷ us)
    extend r = elim (Bool-cases (leb t.cycle r.task.cycle)) [
      | inl e ↦ record {
        place = 0;
        task = t;
        rest = u ∷ us;
        taken = unfold take_at in refl;
        first = head_first e;
        shorter = omega arith;
      }
      | inr e ↦ record {
        place = suc r.place;
        task = r.task;
        rest = t ∷ r.rest;
        taken = unfold take_at in rw r.taken;
        first = tail_first e;
        shorter = omega (arith, r.shorter);
      }
    ]
      where
        head_first : leb t.cycle r.task.cycle ≡ true → none_before t.cycle (t ∷ u ∷ us) ≡ true
        head_first e =
            unfold none_before in
            ground (arith, e, r.first, none_before_mono t.cycle r.task.cycle (u ∷ us))

        tail_first : leb t.cycle r.task.cycle ≡ false → none_before r.task.cycle (t ∷ u ∷ us) ≡ true
        tail_first e = unfold none_before in ground (arith, e, r.first)

-- While events wait and the thread has not been terminated, some of them can be on top: none of the
-- others is earlier. Once that one is due, the thread takes it out of the queue, which keeps the others,
-- and hands it on exactly if it has not been stopped.
pub expire_progress :
    (s : Scheduler) (t : SchedulerTask) (ts : List SchedulerTask)
    → s.event_list ≡ t ∷ ts
    → is_terminated s.thread_state ≡ false
    → (i : ℕ) × (top : SchedulerTask) × (rest : List SchedulerTask) × (take_at i s.event_list
        ≡ some (top, rest))
      × All (λ u. top.cycle ≤ u.cycle) s.event_list
      × ((now : ℕ)
          → top.cycle ≤ now
          → ((expire i now s).1.event_list ≡ rest)
            × ((expire i now s).0 ≡ (if contains top.event_id s.event_ids then some top else none)))
unfolding expire pop_event
expire_progress s t ts e live = (
  top.place,
  top.task,
  top.rest,
  rw e top.taken,
  rw e (none_before_sound top.task.cycle (t ∷ ts) top.first),
  λ now due. (
    ground (arith, e, live, top.taken, top.first),
    ground (arith, e, live, top.taken, top.first),
  ),
)
  where
    top : Top (t ∷ ts)
    top = find-Top t ts
