-- ===== src/Network/Pool/Once.antt =====
-- In the pool of src/outputmessage.cpp every message is in one place: it waits in the pool, or a task
-- is to release it, or somebody has a pointer to it.
use model_lib.Prelude.{
  ℕ, ◌+◌, ◌≤◌, ◌≡◌, refl, ap, ◌∙◌, false, ltb, ◌==◌, if◌then◌else◌, arith, Bool-cases, inl, inr,
  true, sym, [],
}
use model_lib.Prelude.Pointers.{count, contains-count}
use model_lib.Network.Pool.{Pool, release}

-- The pointers to a message.
unfoldable pub refs : ℕ → Pool → ℕ
refs m s = count m s.outside + count m s.auto_send + count m s.add_queue

abbrev pub one_if_some : ℕ → ℕ
one_if_some n = if n == 0 then 0 else 1

-- Where a message is, in numbers.
unfoldable pub places : ℕ → Pool → ℕ
unfolding refs
places m s = count m s.output_messages + count m s.tasks + count m s.lost + one_if_some (refs m s)

-- Every message that has been allocated is in one place, and the others in none.
-- None is lost while the dispatcher runs.
pub record IsOnce (s : Pool) : Type 0 where
  pub kept : s.is_dispatching ≡ true → s.lost ≡ []
  pub once : (m : ℕ) → places m s ≡ (if ltb m s.allocated then 1 else 0)

-- At most the pointers to one message are others.
pub record SameBut (m : ℕ) (s t : Pool) : Type 0 where
  pub pool : t.output_messages ≡ s.output_messages
  pub tasks : t.tasks ≡ s.tasks
  pub lost : t.lost ≡ s.lost
  pub dispatching : t.is_dispatching ≡ s.is_dispatching
  pub allocated : t.allocated ≡ s.allocated
  pub others : (x : ℕ) → x == m ≡ false → refs x t ≡ refs x s

pub SameBut-refl : (m : ℕ) (s : Pool) → SameBut m s s
SameBut-refl m s = record {
  pool = refl;
  tasks = refl;
  lost = refl;
  dispatching = refl;
  allocated = refl;
  others = λ x e. refl;
}

pub SameBut-trans : (m : ℕ) (s t u : Pool) → SameBut m s t → SameBut m t u → SameBut m s u
SameBut-trans m s t u a b = record {
  pool = b.pool ∙ a.pool;
  tasks = b.tasks ∙ a.tasks;
  lost = b.lost ∙ a.lost;
  dispatching = b.dispatching ∙ a.dispatching;
  allocated = b.allocated ∙ a.allocated;
  others = λ x e. b.others x e ∙ a.others x e;
}

module _ (m : ℕ) (t : Pool) (x : ℕ) where
  release_tasks :
      count x (release m t).tasks + count x (release m t).lost
      ≡ count x t.tasks + count x t.lost + (if x == m then (if refs m t == 0 then 1 else 0) else 0)
  unfolding release refs count
  release_tasks = ground (
    arith,
    contains-count m t.outside,
    contains-count m t.auto_send,
    contains-count m t.add_queue,
  )

  release_refs : refs x (release m t) ≡ refs x t
  unfolding release refs
  release_refs = ground arith

release-kept :
    (m : ℕ) (t : Pool)
    → (t.is_dispatching ≡ true → t.lost ≡ [])
    → (release m t).is_dispatching ≡ true
    → (release m t).lost ≡ []
unfolding release
release-kept m t h e = ground (arith, h, e)

release_pool :
    (m : ℕ) (t : Pool)
    → ((release m t).output_messages ≡ t.output_messages) × ((release m t).allocated ≡ t.allocated)
unfolding release
release_pool m t = (ground arith, ground arith)

-- A message that had a pointer, and lost pointers or not, is released in time.
pub release-IsOnce :
    (m : ℕ) (s t : Pool) → IsOnce s → 1 ≤ refs m s → SameBut m s t → IsOnce (release m t)
unfolding places
release-IsOnce m s t once some_ref same = record {
  kept = release-kept m t (λ e. same.lost ∙ once.kept (sym same.dispatching ∙ e));
  once = λ x.
      let (pool, allocated) = release_pool m t in
      let tasks = release_tasks m t x in
      let pointers = release_refs m t x in
      let in_pool = ap (count x) (pool ∙ same.pool) in
      let in_tasks = ap (count x) same.tasks in
      let in_lost = ap (count x) same.lost in
      let all = allocated ∙ same.allocated in
      let before = once.once x in
      elim (Bool-cases (x == m)) [
        | inl e ↦
            let eq : x ≡ m = ground (arith, e) in
            let ref_x : 1 ≤ refs x s = rw eq some_ref in
            let at_x : refs x t ≡ refs m t = ap (λ y. refs y t) eq in
            ground (arith, e, tasks, pointers, in_pool, in_tasks, in_lost, all, before, ref_x, at_x)
        | inr e ↦
            ground
              (arith, e, tasks, pointers, in_pool, in_tasks, in_lost, all, before, same.others x e)
      ];
}

-- A message that keeps a pointer.
pub keep-IsOnce :
    (m : ℕ) (s t : Pool) → IsOnce s → 1 ≤ refs m s → SameBut m s t → 1 ≤ refs m t → IsOnce t
unfolding places
keep-IsOnce m s t once some_ref same still = record {
  kept = λ e. same.lost ∙ once.kept (sym same.dispatching ∙ e);
  once = λ x.
      let in_pool = ap (count x) same.pool in
      let in_tasks = ap (count x) same.tasks in
      let in_lost = ap (count x) same.lost in
      let before = once.once x in
      elim (Bool-cases (x == m)) [
        | inl e ↦
            let eq : x ≡ m = ground (arith, e) in
            let ref_x : 1 ≤ refs x s = rw eq some_ref in
            let still_x : 1 ≤ refs x t = rw eq still in
            ground (arith, e, in_pool, in_tasks, in_lost, same.allocated, before, ref_x, still_x)
        | inr e ↦
            ground (arith, e, in_pool, in_tasks, in_lost, same.allocated, before, same.others x e)
      ];
}

-- Where no pointer changes.
pub quiet-IsOnce :
    (s t : Pool)
    → t.output_messages ≡ s.output_messages
    → t.tasks ≡ s.tasks
    → t.lost ≡ s.lost
    → t.is_dispatching ≡ s.is_dispatching
    → t.allocated ≡ s.allocated
    → ((x : ℕ) → refs x t ≡ refs x s)
    → IsOnce s
    → IsOnce t
unfolding places
quiet-IsOnce s t pool tasks lost dispatching allocated same once = record {
  kept = λ e. lost ∙ once.kept (sym dispatching ∙ e);
  once = λ x. ground (
    arith,
    ap (count x) pool,
    ap (count x) tasks,
    ap (count x) lost,
    allocated,
    same x,
    once.once x,
  );
}
