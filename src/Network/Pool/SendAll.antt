-- ===== src/Network/Pool/SendAll.antt =====
-- `sendAll` of src/outputmessage.cpp: its two loops.
use model_lib.Prelude.{ℕ, ◌+◌, ◌≤◌, ◌≡◌, refl, ap, ◌∙◌, Bool, ◌||◌, ltb, List, [], ◌∷◌, ◌++◌, arith}
use model_lib.Prelude.Pointers.{erase, count, count-erase, count-append}
use model_lib.Network.Pool.{state_allocated, Pool, Message, on_message, release}
use model_lib.Network.Pool.Output.{seal, send_to, since, move_queue, send_autos, send_all}
use model_lib.Network.Pool.Once.{refs, places, IsOnce, SameBut-trans, release-IsOnce, keep-IsOnce}
use model_lib.Network.Pool.Sending.{
  if-closed, seal-SameBut, seal_queues, send_to-IsSending, release_queues, drop_queue-SameBut,
  drop_auto-SameBut,
}

-- What is left of the first loop is in the queue, and what is in the queue is left or moved on.
record IsMoving (ms : List ℕ) (s : Pool) : Type 0 where
  pub once : IsOnce s
  pub left : (x : ℕ) → count x ms ≤ count x s.add_queue
  pub moved : (x : ℕ) → count x s.add_queue ≤ count x ms + count x s.auto_send

-- An iteration that drops a message, and one that moves it on.
module _ (m : ℕ) (ms : List ℕ) (s : Pool) (moving : IsMoving (m ∷ ms) s) where
  left_refs : 1 ≤ refs m s
  unfolding refs count
  left_refs = ground (arith, moving.left m)

  dropped-IsMoving :
      let t = seal m s in IsMoving ms (release m (record t { add_queue = erase m t.add_queue }))
  unfolding count
  dropped-IsMoving =
      let t = seal m s in
      let u = record t { add_queue = erase m t.add_queue } in
      let (queue, autos) = release_queues m u in
      let (autos', queue') = seal_queues m s in
      let queue_now : (release m u).add_queue ≡ erase m s.add_queue = queue ∙ ap (erase m) queue' in
      let autos_now : (release m u).auto_send ≡ s.auto_send = autos ∙ autos' in
      record {
        once =
            release-IsOnce m s u moving.once left_refs
              (SameBut-trans m s t u (seal-SameBut m s) (drop_queue-SameBut m t));
        left =
            λ x. ground (arith, moving.left x, ap (count x) queue_now, count-erase x m s.add_queue);
        moved = λ x. ground (
          arith,
          moving.moved x,
          ap (count x) queue_now,
          ap (count x) autos_now,
          count-erase x m s.add_queue,
          moving.left x,
        );
      }

  moved-IsMoving :
      (f : Message → Message)
      → let t = on_message m f s in IsMoving ms (record t { auto_send = t.auto_send ++ m ∷ [] })
  unfolding on_message count
  moved-IsMoving f = record {
    once =
        keep-IsOnce m s _ moving.once left_refs
          (record {
            pool = refl;
            tasks = refl;
            lost = refl;
            dispatching = refl;
            allocated = refl;
            others = λ x e. unfold refs in ground (arith, e, count-append x m s.auto_send);
          })
          (unfold refs in ground (arith, count-append m m s.auto_send));
    left = λ x. ground (arith, moving.left x);
    moved = λ x. ground (arith, moving.moved x, count-append x m s.auto_send);
  }

move_queue-IsMoving :
    (now : ℕ) (ms : List ℕ) (s : Pool) → IsMoving ms s → IsMoving [] (move_queue now ms s)
unfolding move_queue
move_queue-IsMoving now [] s h = h
move_queue-IsMoving now (m ∷ ms) s h = move_queue-IsMoving now ms _ (
    if-closed (IsMoving ms) (ltb 10000 (since now (s.messages m).frame)) _ _
      (dropped-IsMoving m ms s h)
      (moved-IsMoving m ms s h (λ r. record r { state = state_allocated })))

-- What is left of the second loop is in its queue.
record IsSendingAll (ms : List ℕ) (s : Pool) : Type 0 where
  pub once : IsOnce s
  pub left : (x : ℕ) → count x ms ≤ count x s.auto_send

module _ (slow : Bool) (m : ℕ) (ms : List ℕ) (s : Pool) (sending : IsSendingAll (m ∷ ms) s) where
  sent-IsSendingAll :
      let t = send_to slow (s.messages m).connection m s in
      IsSendingAll ms (release m (record t { auto_send = erase m t.auto_send }))
  unfolding count
  sent-IsSendingAll =
      let t = send_to slow (s.messages m).connection m s in
      let u = record t { auto_send = erase m t.auto_send } in
      let (same, autos) = send_to-IsSending slow m s (s.messages m).connection in
      let autos_now : (release m u).auto_send ≡ erase m s.auto_send =
        (release_queues m u).1 ∙ ap (erase m) autos in
      record {
        once =
            release-IsOnce m s u sending.once (unfold refs in ground (arith, sending.left m))
              (SameBut-trans m s t u same (drop_auto-SameBut m t));
        left = λ x.
            ground (arith, sending.left x, ap (count x) autos_now, count-erase x m s.auto_send);
      }

  waiting-IsSendingAll : IsSendingAll ms s
  unfolding count
  waiting-IsSendingAll = record { once = sending.once; left = λ x. ground (arith, sending.left x) }

send_autos-IsOnce :
    (size : ℕ → ℕ) (slow : Bool) (ms : List ℕ) (s : Pool)
    → IsSendingAll ms s
    → IsOnce (send_autos size slow ms s)
unfolding send_autos
send_autos-IsOnce size slow [] s h = h.once
send_autos-IsOnce size slow (m ∷ ms) s h = send_autos-IsOnce size slow ms _ (
    if-closed (IsSendingAll ms)
      (ltb 1024 (size m) || ltb 10 (since s.frame_time (s.messages m).frame)) _ _
      (sent-IsSendingAll slow m ms s h) (waiting-IsSendingAll slow m ms s h))

cleared-IsOnce : (t : Pool) → IsMoving [] t → IsOnce (record t { add_queue = [] })
unfolding places refs count
cleared-IsOnce t moving = record {
  kept = moving.once.kept;
  once = λ x. ground (arith, moving.once.once x, moving.moved x);
}

pub send_all-IsOnce :
    (now : ℕ) (size : ℕ → ℕ) (slow : Bool) (s : Pool) → IsOnce s → IsOnce (send_all now size slow s)
unfolding send_all
send_all-IsOnce now size slow s once =
    let t = move_queue now s.add_queue s in
    let start : IsMoving s.add_queue s = record {
      once = once;
      left = λ x. omega arith;
      moved = λ x. omega arith;
    } in
    let moving = move_queue-IsMoving now s.add_queue s start in
    send_autos-IsOnce size slow t.auto_send (record t { add_queue = [] })
      (record { once = cleared-IsOnce t moving; left = λ x. omega arith })
