-- ===== src/Network/Pool/Sealed/Steps.antt =====
-- The steps of the pool of src/outputmessage.cpp put headers on no message twice.
use model_lib.Prelude.{
  ℕ, ◌-◌, ◌≡◌, refl, Bool, true, false, ◌&&◌, not, ltb, ◌==◌, if◌then◌else◌, Option, none, some,
  List, [], ◌∷◌, arith, Bool-cases, inl, inr,
}
use model_lib.Prelude.Pointers.{contains, erase, count}
use model_lib.Network.Pool.{
  Pool, Connection, Protocol, on_message, on_connection, on_protocol, release, un_ref_protocol,
  un_ref_connection, internal_release_message, new_pool,
}
use model_lib.Network.Pool.Output.{is_no_autosend, send, on_write}
use model_lib.Network.Pool.Machine.{
  Command, take_one, take_buffer, send_one, copy, drop_one, run_release, end_write, send_every,
  start_frame, set_connection, set_open, send_direct, stop, stop_dispatching, step, run,
}
use model_lib.Network.Pool.Once.{IsOnce}
use model_lib.Network.Pool.Sending.{if-closed}
use model_lib.Network.Pool.Steps.{step-IsOnce, new_pool-IsOnce}
use model_lib.Network.Pool.Sealed.{
  weight, IsSealedOnce, release_weight, Gains, send_to-Gains, connection_send-Gains,
  send_all-IsSealedOnce,
}
use model_lib.Network.Pool.Sealed.Taking.{
  get_output_message-IsSealedOnce, get_output_buffer-IsSealedOnce, on_protocol-IsSealedOnce,
  on_connection-IsSealedOnce,
}

-- Whether a step sends a message that waits to be sent, as one that is sent by itself does from the
-- start, or that is sealed.
unfoldable pub is_repeated : Command → Pool → Bool
unfolding weight
is_repeated (take_one p auto) s = false
is_repeated (take_buffer p) s = false
is_repeated (send_one m) s = is_no_autosend (s.messages m).state && ltb 0 (weight m s)
is_repeated (copy m) s = false
is_repeated (drop_one m) s = false
is_repeated (run_release m) s = false
is_repeated (end_write c failed m) s = false
is_repeated (send_every now size) s = false
is_repeated (start_frame now) s = false
is_repeated (set_connection p c) s = false
is_repeated (set_open c b) s = false
is_repeated (send_direct c m) s = ltb 0 (weight m s)
is_repeated stop s = false
is_repeated stop_dispatching s = false

-- Whether no step of a run does.
unfoldable pub sends_once : Bool → List Command → Pool → Bool
unfolding is_repeated
sends_once slow [] s = true
sends_once slow (c ∷ cs) s = not (is_repeated c s) && sends_once slow cs (step slow c s)

un_ref_weight :
    (o q : Option ℕ) (s : Pool) (x : ℕ)
    → weight x (un_ref_connection o (un_ref_protocol q s)) ≡ weight x s
unfolding un_ref_connection un_ref_protocol on_protocol on_connection weight
un_ref_weight none none s x = refl
un_ref_weight none (some p) s x = refl
un_ref_weight (some c) none s x = refl
un_ref_weight (some c) (some p) s x = refl

internal_release_message-IsSealedOnce :
    (m : ℕ) (s : Pool) → IsSealedOnce s → IsSealedOnce (internal_release_message m s)
unfolding internal_release_message on_message weight
internal_release_message-IsSealedOnce m s once = record {
  sealed = λ x.
      let same = un_ref_weight (s.messages m).connection (s.messages m).protocol s x in
      ground (arith, once.sealed x, same);
}

release-IsSealedOnce : (m : ℕ) (s : Pool) → IsSealedOnce s → IsSealedOnce (release m s)
release-IsSealedOnce m s once = record {
  sealed = λ x. ground (arith, once.sealed x, release_weight m s x);
}

outside-IsSealedOnce :
    (xs : List ℕ) (s : Pool) → IsSealedOnce s → IsSealedOnce (record s { outside = xs })
unfolding weight
outside-IsSealedOnce xs s once = record { sealed = λ x. once.sealed x }

tasks-IsSealedOnce :
    (xs : List ℕ) (s : Pool) → IsSealedOnce s → IsSealedOnce (record s { tasks = xs })
unfolding weight
tasks-IsSealedOnce xs s once = record { sealed = λ x. once.sealed x }

-- One message that gets heavier, and was not to be sent.
Gains-IsSealedOnce :
    (m : ℕ) (s t : Pool) → Gains m s t → weight m s ≡ 0 → IsSealedOnce s → IsSealedOnce t
Gains-IsSealedOnce m s t gains new once = record {
  sealed = λ x. elim (Bool-cases (x == m)) [
    | inl f ↦
        let eq : x ≡ m = ground (arith, f) in
        let new_x : weight x s ≡ 0 = rw eq new in ground (arith, f, gains x, new_x)
    | inr f ↦ ground (arith, f, gains x, once.sealed x)
  ];
}

-- A first sending.
send-IsSealedOnce :
    (slow : Bool) (m : ℕ) (s : Pool)
    → is_repeated (send_one m) s ≡ false
    → IsSealedOnce s
    → IsSealedOnce (send slow m s)
unfolding send is_repeated
send-IsSealedOnce slow m s first once = elim (Bool-cases (is_no_autosend (s.messages m).state)) [
  | inl e ↦
      let new : weight m s ≡ 0 = ground (arith, first, e) in
      rw (e, send)
        (Gains-IsSealedOnce m s _ (send_to-Gains slow m s (s.messages m).connection) new once)
  | inr e ↦ rw (e, send) once
]

on_write-IsSealedOnce :
    (c : ℕ) (failed : Bool) (m : ℕ) (s : Pool)
    → IsSealedOnce s
    → IsSealedOnce (on_write c failed m s)
unfolding on_write
on_write-IsSealedOnce c failed m s once =
    let t = release m (record s { outside = erase m s.outside }) in
    let u = if failed then on_connection c (λ r. record r { open_state = false }) t else t in
    let at =
      release-IsSealedOnce m (record s { outside = erase m s.outside })
        (outside-IsSealedOnce _ s once) in
    let now =
      if-closed IsSealedOnce failed _ t
        (on_connection-IsSealedOnce c (λ r. record r { open_state = false }) t at) at in
    if-closed IsSealedOnce (u.connections c).open_state _ u
      (on_connection-IsSealedOnce c (λ r. record r { pending_write = r.pending_write - 1 }) u now)
      now

step-IsSealedOnce :
    (slow : Bool) (c : Command) (s : Pool)
    → is_repeated c s ≡ false
    → IsOnce s
    → IsSealedOnce s
    → IsSealedOnce (step slow c s)
unfolding step weight
step-IsSealedOnce slow (take_one p auto) s first placed once =
    get_output_message-IsSealedOnce p auto s placed once
step-IsSealedOnce slow (take_buffer p) s first placed once =
    get_output_buffer-IsSealedOnce p s placed once
step-IsSealedOnce slow (send_one m) s first placed once =
    if-closed IsSealedOnce (contains m s.outside) _ s
      (release-IsSealedOnce m (send slow m s) (send-IsSealedOnce slow m s first once)) once
step-IsSealedOnce slow (copy m) s first placed once =
    if-closed IsSealedOnce (contains m s.outside) _ s (outside-IsSealedOnce _ s once) once
step-IsSealedOnce slow (drop_one m) s first placed once =
    if-closed IsSealedOnce (contains m s.outside) _ s
      (release-IsSealedOnce m _ (outside-IsSealedOnce _ s once)) once
step-IsSealedOnce slow (run_release m) s first placed once =
    if-closed IsSealedOnce (contains m s.tasks) _ s
      (internal_release_message-IsSealedOnce m _ (tasks-IsSealedOnce _ s once)) once
step-IsSealedOnce slow (end_write c failed m) s first placed once =
    if-closed IsSealedOnce (contains m s.outside && ltb 0 (s.connections c).pending_write) _ s
      (on_write-IsSealedOnce c failed m s once) once
step-IsSealedOnce slow (send_every now size) s first placed once =
    send_all-IsSealedOnce now size slow s once
step-IsSealedOnce slow (start_frame now) s first placed once = record {
  sealed = λ x. once.sealed x;
}
step-IsSealedOnce slow (set_connection p c) s first placed once =
    on_protocol-IsSealedOnce p (λ r. record r { connection = c }) s once
step-IsSealedOnce slow (set_open c b) s first placed once =
    on_connection-IsSealedOnce c (λ r. record r { open_state = b }) s once
step-IsSealedOnce slow (send_direct c m) s first placed once =
    let new : weight m s ≡ 0 = unfold is_repeated in ground (arith, first) in
    if-closed IsSealedOnce (contains m s.outside) _ s
      (release-IsSealedOnce m _
        (Gains-IsSealedOnce m s _ (connection_send-Gains slow m s c) new once))
      once
step-IsSealedOnce slow stop_dispatching s first placed once = record { sealed = λ x. once.sealed x }
step-IsSealedOnce slow stop s first placed once = record { sealed = λ x. once.sealed x }

run-IsSealedOnce :
    (slow : Bool) (cs : List Command) (s : Pool)
    → sends_once slow cs s ≡ true
    → IsOnce s
    → IsSealedOnce s
    → IsSealedOnce (run slow cs s)
unfolding run sends_once
run-IsSealedOnce slow [] s first placed once = once
run-IsSealedOnce slow (c ∷ cs) s first placed once =
    run-IsSealedOnce slow cs (step slow c s) (ground (arith, first)) (step-IsOnce slow c s placed)
      (step-IsSealedOnce slow c s (ground (arith, first)) placed once)

new_pool-IsSealedOnce :
    (now : ℕ) (connections : ℕ → Connection) (protocols : ℕ → Protocol)
    → IsSealedOnce (new_pool now connections protocols)
unfolding new_pool weight count
new_pool-IsSealedOnce now connections protocols = record { sealed = λ x. omega arith }

-- In a run of a new pool in which nobody calls the pool's `send` a second time for a message that is
-- not sent by itself, nor the connection's `send` for one that is sent by itself or has been sent: no
-- message has headers put on it twice while it is given out, and a message that has them waits in no
-- queue of messages that are to be sent, nor does a message wait there twice.
pub run_new-IsSealedOnce :
    (slow : Bool) (cs : List Command) (now : ℕ) (connections : ℕ → Connection)
    (protocols : ℕ → Protocol)
    → sends_once slow cs (new_pool now connections protocols) ≡ true
    → IsSealedOnce (run slow cs (new_pool now connections protocols))
run_new-IsSealedOnce slow cs now connections protocols first =
    run-IsSealedOnce slow cs _ first (new_pool-IsOnce now connections protocols)
      (new_pool-IsSealedOnce now connections protocols)
