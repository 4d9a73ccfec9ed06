-- ===== src/Network/Pool/Steps.antt =====
-- The steps of the pool of src/outputmessage.cpp, and their sequences.
use model_lib.Prelude.{
  ℕ, zero, suc, ◌+◌, ◌-◌, ◌≤◌, ◌≡◌, refl, ap, Bool, true, false, ltb, if◌then◌else◌, Option, none,
  some, List, [], ◌∷◌, arith, ◌∙◌, sym,
}
use model_lib.Prelude.Pointers.{contains, erase, count, contains-count, count-erase}
use model_lib.Network.Pool.{
  Pool, Connection, Protocol, on_message, on_connection, on_protocol, release, un_ref_protocol,
  un_ref_connection, internal_release_message, below, output_pool_size, new_pool,
}
use model_lib.Network.Pool.Output.{connection_send, send, is_no_autosend, on_write}
use model_lib.Network.Pool.Machine.{
  Command, take_one, take_buffer, send_one, copy, drop_one, run_release, end_write, send_every,
  start_frame, set_connection, set_open, send_direct, stop, stop_dispatching, step, run,
}
use model_lib.Network.Pool.Once.{
  refs, one_if_some, places, IsOnce, SameBut-refl, release-IsOnce, keep-IsOnce, quiet-IsOnce,
}
use model_lib.Network.Pool.Sending.{
  IsSending, if-closed, connection_send-IsSending, send_to-IsSending, drop_outside-SameBut,
}
use model_lib.Network.Pool.SendAll.{send_all-IsOnce}
use model_lib.Network.Pool.Taking.{
  get_output_message-IsOnce, get_output_buffer-IsOnce, on_connection-IsOnce, on_protocol-IsOnce,
}

un_ref_fields :
    (o q : Option ℕ) (s : Pool)
    → let t = un_ref_connection o (un_ref_protocol q s) in
      (t.output_messages ≡ s.output_messages)
      × (t.tasks ≡ s.tasks)
      × (t.allocated ≡ s.allocated)
      × (t.lost ≡ s.lost)
      × (t.is_dispatching ≡ s.is_dispatching)
      × ((x : ℕ) → refs x t ≡ refs x s)
unfolding un_ref_connection un_ref_protocol on_protocol on_connection refs
un_ref_fields none none s = (refl, refl, refl, refl, refl, λ x. refl)
un_ref_fields none (some p) s = (refl, refl, refl, refl, refl, λ x. refl)
un_ref_fields (some c) none s = (refl, refl, refl, refl, refl, λ x. refl)
un_ref_fields (some c) (some p) s = (refl, refl, refl, refl, refl, λ x. refl)

-- The task that releases a message puts it back.
internal_release_message-IsOnce :
    (m : ℕ) (s : Pool)
    → 1 ≤ count m s.tasks
    → IsOnce s
    → IsOnce (internal_release_message m (record s { tasks = erase m s.tasks }))
unfolding internal_release_message on_message places count
internal_release_message-IsOnce m s waits once =
    let u = record s { tasks = erase m s.tasks } in
    let (pool, tasks, all, lost, dispatching, pointers) =
      un_ref_fields (s.messages m).connection (s.messages m).protocol u in
    record {
      kept = λ e. lost ∙ once.kept (sym dispatching ∙ e);
      once = λ x. ground (
        arith,
        once.once x,
        ap (count x) pool,
        ap (count x) tasks,
        ap (count x) lost,
        all,
        pointers x,
        count-erase x m s.tasks,
        waits,
      );
    }

-- Whoever is outside has a pointer.
contains-refs : (m : ℕ) (s : Pool) → contains m s.outside ≡ true → 1 ≤ refs m s
unfolding refs
contains-refs m s e = ground (arith, e, contains-count m s.outside)

if-IsOnce : (b : Bool) (s t : Pool) → (b ≡ true → IsOnce t) → IsOnce s → IsOnce (if b then t else s)
if-IsOnce true s t h k = h refl
if-IsOnce false s t h k = k

module _ (slow : Bool) (m : ℕ) (s : Pool) (once : IsOnce s)
    (held : contains m s.outside ≡ true) where
  sent-IsOnce : IsOnce (release m (send slow m s))
  unfolding send
  sent-IsOnce =
      release-IsOnce m s _ once (contains-refs m s held)
        (if-closed (IsSending m s) (is_no_autosend (s.messages m).state) _ s
          (send_to-IsSending slow m s (s.messages m).connection) (SameBut-refl m s, refl)).0

  sent_direct-IsOnce : (c : ℕ) → IsOnce (release m (connection_send slow c m s).1)
  sent_direct-IsOnce c =
      release-IsOnce m s _ once (contains-refs m s held) (connection_send-IsSending slow m s c).0

  copied-IsOnce : IsOnce (record s { outside = m ∷ s.outside })
  unfolding refs count
  copied-IsOnce =
      keep-IsOnce m s _ once (contains-refs m s held)
        (record {
          pool = refl;
          tasks = refl;
          lost = refl;
          dispatching = refl;
          allocated = refl;
          others = λ x e. ground (arith, e);
        })
        (ground arith)

  dropped-IsOnce : IsOnce (release m (record s { outside = erase m s.outside }))
  dropped-IsOnce = release-IsOnce m s _ once (contains-refs m s held) (drop_outside-SameBut m s)

  on_write-IsOnce : (c : ℕ) (failed : Bool) → IsOnce (on_write c failed m s)
  unfolding on_write
  on_write-IsOnce c failed =
      let t = release m (record s { outside = erase m s.outside }) in
      let u = if failed then on_connection c (λ r. record r { open_state = false }) t else t in
      let now =
        if-IsOnce failed t _
          (λ e. on_connection-IsOnce c (λ r. record r { open_state = false }) t dropped-IsOnce)
          dropped-IsOnce in
      if-IsOnce (u.connections c).open_state u _
        (λ e. on_connection-IsOnce c (λ r. record r { pending_write = r.pending_write - 1 }) u now)
        now

-- No step loses a message, or has it in two places.
pub step-IsOnce : (slow : Bool) (c : Command) (s : Pool) → IsOnce s → IsOnce (step slow c s)
unfolding step refs places
step-IsOnce slow (take_one p auto) s once = get_output_message-IsOnce p auto s once
step-IsOnce slow (take_buffer p) s once = get_output_buffer-IsOnce p s once
step-IsOnce slow (send_one m) s once = if-IsOnce _ s _ (sent-IsOnce slow m s once) once
step-IsOnce slow (copy m) s once = if-IsOnce _ s _ (copied-IsOnce slow m s once) once
step-IsOnce slow (drop_one m) s once = if-IsOnce _ s _ (dropped-IsOnce slow m s once) once
step-IsOnce slow (run_release m) s once =
    if-IsOnce _ s _
      (λ e. internal_release_message-IsOnce m s (ground (arith, e, contains-count m s.tasks)) once)
      once
step-IsOnce slow (end_write c failed m) s once =
    if-IsOnce _ s _ (λ e. on_write-IsOnce slow m s once (ground (arith, e)) c failed) once
step-IsOnce slow (send_every now size) s once = send_all-IsOnce now size slow s once
step-IsOnce slow (start_frame now) s once =
    quiet-IsOnce s _ refl refl refl refl refl (λ x. refl) once
step-IsOnce slow (set_connection p c) s once =
    on_protocol-IsOnce p (λ r. record r { connection = c }) s once
step-IsOnce slow (set_open c b) s once =
    on_connection-IsOnce c (λ r. record r { open_state = b }) s once
step-IsOnce slow (send_direct c m) s once =
    if-IsOnce _ s _ (λ e. sent_direct-IsOnce slow m s once e c) once
step-IsOnce slow stop_dispatching s once = record { kept = λ e. cc e; once = λ x. once.once x }
step-IsOnce slow stop s once = quiet-IsOnce s _ refl refl refl refl refl (λ x. refl) once

pub run-IsOnce : (slow : Bool) (cs : List Command) (s : Pool) → IsOnce s → IsOnce (run slow cs s)
unfolding run
run-IsOnce slow [] s once = once
run-IsOnce slow (c ∷ cs) s once = run-IsOnce slow cs (step slow c s) (step-IsOnce slow c s once)

count-below : (x n : ℕ) → count x (below n) ≡ (if ltb x n then 1 else 0)
unfolding count below
count-below x zero = ground arith
count-below x (suc n) = ground (arith, count-below x n)

pub new_pool-IsOnce :
    (now : ℕ) (connections : ℕ → Connection) (protocols : ℕ → Protocol)
    → IsOnce (new_pool now connections protocols)
unfolding new_pool places refs
new_pool-IsOnce now connections protocols = record {
  kept = λ e. refl;
  once = λ x. below_once x output_pool_size;
}
  where
    below_once :
        (x n : ℕ)
        → count x (below n)
            + count x []
            + count x []
            + one_if_some (count x [] + count x [] + count x [])
          ≡ (if ltb x n then 1 else 0)
    below_once x n = unfold count in ground (arith, count-below x n)

-- After any sequence of steps of a new pool every message that has been allocated is in exactly one
-- place: it waits in the pool, or a task is to release it, or somebody has a pointer to it, or it is
-- lost, because the dispatcher has thrown its task away. None is lost while the dispatcher runs. A
-- message that has not been allocated is in no place.
pub run_new-IsOnce :
    (slow : Bool) (cs : List Command) (now : ℕ) (connections : ℕ → Connection)
    (protocols : ℕ → Protocol)
    → IsOnce (run slow cs (new_pool now connections protocols))
run_new-IsOnce slow cs now connections protocols =
    run-IsOnce slow cs _ (new_pool-IsOnce now connections protocols)
