-- ===== src/Network/Pool/Sealed.antt =====
-- How often `onSendMessage` of src/protocol.cpp puts headers on a message of the pool.
pub mod Taking
pub mod Steps
use model_lib.Prelude.{
  ℕ, ◌+◌, ◌≤◌, ◌≡◌, refl, ap, Bool, true, false, ◌||◌, ltb, ◌==◌, if◌then◌else◌, Option, none, some,
  List, [], ◌∷◌, ◌++◌, arith,
}
use model_lib.Prelude.Pointers.{erase, count, count-erase, count-append}
use model_lib.Network.Pool.{
  state_allocated, Pool, Message, on_message, on_connection, on_protocol, release,
}
use model_lib.Network.Pool.Output.{
  seal_by, seal, internal_send, auto_send_later, send_to, connection_send, since, move_queue,
  send_autos, send_all,
}
use model_lib.Network.Pool.Sending.{
  if-closed, send_to-IsSending, send_to-closed, connection_send_outcome, seal_queues,
}

-- How often a message has been sealed, with how often it is to be.
unfoldable pub weight : ℕ → Pool → ℕ
weight m s = (s.messages m).seals + count m s.auto_send + count m s.add_queue

pub record IsSealedOnce (s : Pool) : Type 0 where
  pub sealed : (m : ℕ) → weight m s ≤ 1

-- At most one message is heavier, and by one.
abbrev pub Gains : ℕ → Pool → Pool → Type 0
Gains m s t = (x : ℕ) → weight x t ≤ weight x s + (if x == m then 1 else 0)

module _ (m : ℕ) (s : Pool) (x : ℕ) where
  seal_seals : ((seal m s).messages x).seals ≤ (s.messages x).seals + (if x == m then 1 else 0)
  unfolding seal seal_by on_message on_protocol
  seal_seals = ground arith

  pub release_weight : weight x (release m s) ≡ weight x s
  unfolding release weight
  release_weight = ground arith

seal-Gains : (m : ℕ) (s : Pool) → Gains m s (seal m s)
unfolding weight
seal-Gains m s x =
    let (autos, queue) = seal_queues m s in
    ground (arith, seal_seals m s x, ap (count x) autos, ap (count x) queue)

write-Gains : (c m : ℕ) (s : Pool) → Gains m s (internal_send c m (seal m s))
unfolding internal_send on_connection weight
write-Gains c m s = seal-Gains m s

later-Gains : (m : ℕ) (s : Pool) → Gains m s (auto_send_later m s)
unfolding auto_send_later weight
later-Gains m s x = ground (arith, count-append x m s.add_queue)

close-Gains :
    (c m : ℕ) (s : Pool) → Gains m s (on_connection c (λ r. record r { open_state = false }) s)
unfolding on_connection weight
close-Gains c m s x = omega arith

pub connection_send-Gains :
    (slow : Bool) (m : ℕ) (s : Pool) (c : ℕ) → Gains m s (connection_send slow c m s).1
connection_send-Gains slow m s c =
    connection_send_outcome (Gains m s) slow m s c (λ x. omega arith) (write-Gains c m s)
      (close-Gains c m s) (later-Gains m s)

pub send_to-Gains : (slow : Bool) (m : ℕ) (s : Pool) (o : Option ℕ) → Gains m s (send_to slow o m s)
send_to-Gains slow m s o =
    send_to-closed (Gains m s) slow m s o (λ x. omega arith) (seal-Gains m s)
      (λ c. write-Gains c m s) (λ c. close-Gains c m s) (later-Gains m s)

-- What is left of the first loop counts as what is in the queue.
record IsMovingOnce (ms : List ℕ) (s : Pool) : Type 0 where
  pub moving : (x : ℕ) → (s.messages x).seals + count x s.auto_send + count x ms ≤ 1

release_messages :
    (m : ℕ) (s : Pool)
    → ((release m s).messages ≡ s.messages) × ((release m s).auto_send ≡ s.auto_send)
unfolding release
release_messages m s = (ground arith, ground arith)

module _ (m : ℕ) (ms : List ℕ) (s : Pool) (once : IsMovingOnce (m ∷ ms) s) where
  dropped-IsMovingOnce :
      let t = seal m s in IsMovingOnce ms (release m (record t { add_queue = erase m t.add_queue }))
  unfolding count
  dropped-IsMovingOnce =
      let t = seal m s in
      let (same, autos) = release_messages m (record t { add_queue = erase m t.add_queue }) in
      record {
        moving = λ x. ground (
          arith,
          once.moving x,
          ap (λ f. (f x).seals) same,
          ap (count x) autos,
          seal_seals m s x,
          ap (count x) (seal_queues m s).0,
        );
      }

  moved-IsMovingOnce :
      let t = on_message m (λ r. record r { state = state_allocated }) s in
      IsMovingOnce ms (record t { auto_send = t.auto_send ++ m ∷ [] })
  unfolding on_message count
  moved-IsMovingOnce = record {
    moving = λ x. ground (arith, once.moving x, count-append x m s.auto_send);
  }

move_queue-IsMovingOnce :
    (now : ℕ) (ms : List ℕ) (s : Pool) → IsMovingOnce ms s → IsMovingOnce [] (move_queue now ms s)
unfolding move_queue
move_queue-IsMovingOnce now [] s once = once
move_queue-IsMovingOnce now (m ∷ ms) s once = move_queue-IsMovingOnce now ms _ (
    if-closed (IsMovingOnce ms) (ltb 10000 (since now (s.messages m).frame)) _ _
      (dropped-IsMovingOnce m ms s once) (moved-IsMovingOnce m ms s once))

-- A message that goes from the list is lighter.
erase_weight :
    (m : ℕ) (t : Pool) (x : ℕ)
    → (if x == m then 1 else 0) ≤ count x t.auto_send
    → weight x (record t { auto_send = erase m t.auto_send }) + (if x == m then 1 else 0)
      ≡ weight x t
unfolding weight
erase_weight m t x h = ground (arith, count-erase x m t.auto_send)

-- What is left of the second loop is in its queue.
record IsSendingOnce (ms : List ℕ) (s : Pool) : Type 0 where
  pub sealed : (x : ℕ) → weight x s ≤ 1
  pub left : (x : ℕ) → count x ms ≤ count x s.auto_send

module _ (slow : Bool) (m : ℕ) (ms : List ℕ) (s : Pool) (once : IsSendingOnce (m ∷ ms) s) where
  sent-IsSendingOnce :
      let t = send_to slow (s.messages m).connection m s in
      IsSendingOnce ms (release m (record t { auto_send = erase m t.auto_send }))
  unfolding count
  sent-IsSendingOnce =
      let t = send_to slow (s.messages m).connection m s in
      let u = record t { auto_send = erase m t.auto_send } in
      let autos = (send_to-IsSending slow m s (s.messages m).connection).1 in
      let (same, autos') = release_messages m u in
      record {
        sealed = λ x.
            let lighter = erase_weight m t x (ground (arith, once.left x, ap (count x) autos)) in
            ground (
              arith,
              lighter,
              release_weight m u x,
              once.sealed x,
              send_to-Gains slow m s (s.messages m).connection x,
            );
        left = λ x. ground (
          arith,
          once.left x,
          ap (count x) autos,
          ap (count x) autos',
          count-erase x m t.auto_send,
        );
      }

  waiting-IsSendingOnce : IsSendingOnce ms s
  unfolding count
  waiting-IsSendingOnce = record { sealed = once.sealed; left = λ x. ground (arith, once.left x) }

send_autos-IsSealedOnce :
    (size : ℕ → ℕ) (slow : Bool) (ms : List ℕ) (s : Pool)
    → IsSendingOnce ms s
    → IsSealedOnce (send_autos size slow ms s)
unfolding send_autos
send_autos-IsSealedOnce size slow [] s once = record { sealed = once.sealed }
send_autos-IsSealedOnce size slow (m ∷ ms) s once = send_autos-IsSealedOnce size slow ms _ (
    if-closed (IsSendingOnce ms)
      (ltb 1024 (size m) || ltb 10 (since s.frame_time (s.messages m).frame)) _ _
      (sent-IsSendingOnce slow m ms s once) (waiting-IsSendingOnce slow m ms s once))

cleared-IsSendingOnce :
    (t : Pool) → IsMovingOnce [] t → IsSendingOnce t.auto_send (record t { add_queue = [] })
unfolding weight count
cleared-IsSendingOnce t once = record { sealed = λ x. once.moving x; left = λ x. omega arith }

started-IsMovingOnce : (s : Pool) → IsSealedOnce s → IsMovingOnce s.add_queue s
unfolding weight
started-IsMovingOnce s once = record { moving = λ x. once.sealed x }

pub send_all-IsSealedOnce :
    (now : ℕ) (size : ℕ → ℕ) (slow : Bool) (s : Pool)
    → IsSealedOnce s
    → IsSealedOnce (send_all now size slow s)
unfolding send_all
send_all-IsSealedOnce now size slow s once =
    let t = move_queue now s.add_queue s in
    let moved = move_queue-IsMovingOnce now s.add_queue s (started-IsMovingOnce s once) in
    send_autos-IsSealedOnce size slow t.auto_send (record t { add_queue = [] })
      (cleared-IsSendingOnce t moved)
