-- ===== src/Threads/Scheduler/Once.antt =====
-- No event of the scheduler (src/scheduler.cpp) is dispatched twice, or after it was stopped.
use model_lib.Prelude.{
  ℕ, ◌+◌, ◌≤◌, ◌<◌, ◌≡◌, ◌≢◌, ◌⊎◌, refl, ap, sym, ◌∙◌, Bool, true, false, ◌&&◌, not, leb, Option,
  none, some, List, [], ◌∷◌, length, Option-cases, Bool-cases, inl, inr, arith,
}
use model_lib.Prelude.All.{All}
use model_lib.Threads.Scheduler.{
  Scheduler, SchedulerTask, contains, insert, erase, next_event, add_event, stop_event, stop,
  shutdown, take_at, none_before, pop_event, expire, step, run, emit, Command, adds, stops, expires,
  closes, ends, create_scheduler_task, is_terminated,
}

-- The active identifiers have been given out.
abbrev pub IsBounded : Scheduler → Type 0
IsBounded s = (a : ℕ) → contains a s.event_ids ≡ true → a ≤ s.last_event

-- An identifier that is given out and not active any more.
pub record Gone (id : ℕ) (s : Scheduler) : Type 0 where
  pub inactive : contains id s.event_ids ≡ false
  pub given : id ≤ s.last_event

contains-erase_self : (a : ℕ) (xs : List ℕ) → contains a (erase a xs) ≡ false
unfolding contains erase
contains-erase_self a [] = refl
contains-erase_self a (x ∷ xs) = ground (arith, contains-erase_self a xs)

contains-erase : (a b : ℕ) (xs : List ℕ) → contains a xs ≡ false → contains a (erase b xs) ≡ false
unfolding contains erase
contains-erase a b [] h = refl
contains-erase a b (x ∷ xs) h = ground (arith, contains-erase a b xs)

contains-insert :
    (a b : ℕ) (xs : List ℕ) → a ≢ b → contains a xs ≡ false → contains a (insert b xs) ≡ false
unfolding contains insert
contains-insert a b xs ne h = ground (arith, ne, h)

contains_of_erase : (a b : ℕ) (xs : List ℕ) → contains a (erase b xs) ≡ true → contains a xs ≡ true
unfolding contains erase
contains_of_erase a b [] h = h
contains_of_erase a b (x ∷ xs) h = ground (arith, contains_of_erase a b xs)

contains_of_insert :
    (a b : ℕ) (xs : List ℕ) → contains a (insert b xs) ≡ true → (a ≡ b) ⊎ (contains a xs ≡ true)
unfolding contains insert
contains_of_insert a b xs h = ground (arith, h)

-- The ways through a turn of the thread.
module _ {ℓ} (P : Option SchedulerTask × Scheduler → Type ℓ) (i now : ℕ) (s : Scheduler) where
  pub expire_cases :
      P (none, s)
      → ((task : SchedulerTask) (rest : List SchedulerTask)
          → take_at i s.event_list ≡ some (task, rest)
          → (none_before task.cycle s.event_list ≡ true) × (task.cycle ≤ now)
          → contains task.event_id s.event_ids ≡ true
          → P (
            some task,
            record s { event_ids = erase task.event_id s.event_ids; event_list = rest },
          ))
      → ((task : SchedulerTask) (rest : List SchedulerTask)
          → take_at i s.event_list ≡ some (task, rest)
          → contains task.event_id s.event_ids ≡ false
          → P (none, record s { event_list = rest }))
      → P (expire i now s)
  unfolding expire pop_event
  expire_cases idle runs drops = elim (Option-cases (take_at i s.event_list)) [
    | inl e ↦ rw (e, expire) idle
    | inr (found, e) ↦ elim (Bool-cases (due found.0)) [
      | inr f ↦ rw (e, expire) (rw f idle)
      | inl f ↦ elim (Bool-cases (contains found.0.event_id s.event_ids)) [
        | inl c ↦ rw (e, expire) (rw (f, c) (runs found.0 found.1 e (first found.0 f) c))
        | inr c ↦ rw (e, expire) (rw (f, c) (drops found.0 found.1 e c))
      ]
    ]
  ]
    where
      due : SchedulerTask → Bool
      due task =
          none_before task.cycle s.event_list
          && leb task.cycle now
          && not (is_terminated s.thread_state)

      first :
          (task : SchedulerTask)
          → due task ≡ true
          → (none_before task.cycle s.event_list ≡ true) × (task.cycle ≤ now)
      first task f = (ground (arith, f), ground (arith, f))

-- Before the counter wraps, a step moves it by one at most.
last_event-step :
    (c : Command) (s : Scheduler)
    → s.last_event < 0xFFFFFFFF
    → (s.last_event ≤ (step c s).1.last_event) × ((step c s).1.last_event ≤ s.last_event + 1)
unfolding step add_event stop_event stop shutdown expire pop_event next_event create_scheduler_task
last_event-step (adds now delay action) s h = ground arith
last_event-step (stops event_id) s h = ground arith
last_event-step (expires i now) s h = ground arith
last_event-step closes s h = ground arith
last_event-step ends s h = ground arith

add_event-Gone :
    (id now delay action : ℕ) (s : Scheduler)
    → s.last_event < 0xFFFFFFFF
    → Gone id s
    → Gone id (add_event (create_scheduler_task now delay action) s).1
unfolding add_event next_event create_scheduler_task
add_event-Gone id now delay action s h g = record {
  inactive = ground (
    arith,
    contains-insert id (s.last_event + 1) s.event_ids (omega (arith, g.given)) g.inactive,
  );
  given = ground arith;
}

step-Gone :
    (id : ℕ) (c : Command) (s : Scheduler)
    → s.last_event < 0xFFFFFFFF
    → Gone id s
    → Gone id (step c s).1
unfolding step stop_event stop shutdown expire create_scheduler_task
step-Gone id (adds now delay action) s h g = add_event-Gone id now delay action s h g
step-Gone id (stops event_id) s h g = record {
  inactive = ground (arith, contains-erase id event_id s.event_ids g.inactive);
  given = ground arith;
}
step-Gone id (expires i now) s h g =
    expire_cases (λ r. Gone id r.1) i now s g
      (λ task rest _ _ _. record {
        inactive = contains-erase id task.event_id s.event_ids g.inactive;
        given = g.given;
      })
      (λ task rest _ _. record { inactive = g.inactive; given = g.given })
step-Gone id closes s h g = record { inactive = g.inactive; given = g.given }
step-Gone id ends s h g = record { inactive = unfold contains in refl; given = g.given }

step-IsBounded :
    (c : Command) (s : Scheduler) → s.last_event < 0xFFFFFFFF → IsBounded s → IsBounded (step c s).1
unfolding step stop_event stop shutdown add_event next_event create_scheduler_task
step-IsBounded (adds now delay action) s h b =
    λ a e. ground (arith, b a, contains_of_insert a (s.last_event + 1) s.event_ids)
step-IsBounded (stops event_id) s h b =
    λ a e. ground (arith, b a, contains_of_erase a event_id s.event_ids)
step-IsBounded (expires i now) s h b =
    expire_cases (λ r. IsBounded r.1) i now s b
      (λ task rest _ _ _ a e. b a (contains_of_erase a task.event_id s.event_ids e))
      (λ task rest _ _. b)
step-IsBounded closes s h b = b
step-IsBounded ends s h b = λ a e. absurd (unfold contains in ground (arith, e))

-- What a step hands to the dispatcher was active, and is gone afterwards.
step-out :
    (c : Command) (s : Scheduler) (t : SchedulerTask)
    → IsBounded s
    → (step c s).0 ≡ some t
    → (contains t.event_id s.event_ids ≡ true) × Gone t.event_id (step c s).1
unfolding step
step-out (adds now delay action) s t b = λ e. cc
step-out (stops event_id) s t b = λ e. cc
step-out (expires i now) s t b =
    expire_cases
      (λ r. r.0 ≡ some t → (contains t.event_id s.event_ids ≡ true) × Gone t.event_id r.1) i now s
      (λ e. cc)
      (λ task rest _ _ c e.
        let same : task.event_id ≡ t.event_id = ground (arith, e) in
        (
          rw (← same) c,
          rw (← same)
              (record { inactive = contains-erase_self task.event_id s.event_ids; given = b _ c }),
        ))
      (λ task rest _ _ e. cc)
step-out closes s t b = λ e. cc
step-out ends s t b = λ e. cc

-- An identifier that is gone is not dispatched any more.
pub run-Gone :
    (id : ℕ) (cs : List Command) (s : Scheduler)
    → IsBounded s
    → Gone id s
    → s.last_event + length cs ≤ 0xFFFFFFFF
    → All (λ t. t.event_id ≢ id) (run cs s)
unfolding run
run-Gone id [] s b g h = tt
run-Gone id (c ∷ cs) s b g h =
    let grown = last_event-step c s (omega arith) in
    let later =
      run-Gone id cs (step c s).1 (step-IsBounded c s (omega arith) b)
        (step-Gone id c s (omega arith) g) (omega (arith, grown.1)) in
    elim (Option-cases (step c s).0) [
      | inl e ↦ rw (e, All, emit) later
      | inr (t, e) ↦
          rw (e, All, emit)
            (
              (λ same. cc (
                  sym (step-out c s t b e).0 ∙ ap (λ i. contains i s.event_ids) same ∙ g.inactive)),
              later,
            )
    ]

abbrev pub DistinctIds : List SchedulerTask → Type 0
DistinctIds [] = Unit {0}
DistinctIds (t ∷ ts) = All (λ u. u.event_id ≢ t.event_id) ts × DistinctIds ts

-- Until the counter of identifiers wraps, no run dispatches two tasks under one identifier, whatever
-- is added, stopped and due in it.
pub run-DistinctIds :
    (cs : List Command) (s : Scheduler)
    → IsBounded s
    → s.last_event + length cs ≤ 0xFFFFFFFF
    → DistinctIds (run cs s)
unfolding run
run-DistinctIds [] s b h = tt
run-DistinctIds (c ∷ cs) s b h =
    let grown = last_event-step c s (omega arith) in
    let b' = step-IsBounded c s (omega arith) b in
    let later = run-DistinctIds cs (step c s).1 b' (omega (arith, grown.1)) in
    elim (Option-cases (step c s).0) [
      | inl e ↦ rw (e, DistinctIds, emit) later
      | inr (t, e) ↦
          rw (e, DistinctIds, emit)
            (
              run-Gone t.event_id cs (step c s).1 b' (step-out c s t b e).1
                  (omega (arith, grown.1)),
              later,
            )
    ]

-- An event that `stopEvent` has stopped is never dispatched afterwards, until the counter wraps;
-- `stopEvent` tells whether there was one to stop, and in no case leaves it active.
pub stop_event-never_runs :
    (id : ℕ) (cs : List Command) (s : Scheduler)
    → IsBounded s
    → 0 < id
    → id ≤ s.last_event
    → s.last_event + length cs < 0xFFFFFFFF
    → ((stop_event id s).0 ≡ contains id s.event_ids)
      × All (λ t. t.event_id ≢ id) (run cs (stop_event id s).1)
unfolding stop_event
stop_event-never_runs id cs s b pos given h = (ground arith, run-Gone id cs _ bounded gone small)
  where
    small : (stop_event id s).1.last_event + length cs ≤ 0xFFFFFFFF
    small = ground arith

    gone : Gone id (stop_event id s).1
    gone = record {
      inactive = ground (arith, contains-erase_self id s.event_ids);
      given = ground arith;
    }

    bounded : IsBounded (stop_event id s).1
    bounded a e = ground (arith, b a, contains_of_erase a id s.event_ids)
