-- ===== src/Network/Pool/Sealed/Taking.antt =====
-- `getOutputMessage` of src/outputmessage.cpp gives out messages without headers.
use model_lib.Prelude.{
  ℕ, ◌+◌, ◌≡◌, Bool, true, ◌==◌, Option, none, some, List, arith, Bool-cases, inl, inr,
}
use model_lib.Prelude.Pointers.{count, count-append}
use model_lib.Network.Pool.{
  Pool, Connection, Protocol, on_message, on_connection, on_protocol, configure_output_message,
  fill, take_message, get_output_message, get_output_buffer,
}
use model_lib.Network.Pool.Once.{refs, IsOnce}
use model_lib.Network.Pool.Sending.{if-closed}
use model_lib.Network.Pool.Taking.{List-cases, fill-IsOnce}
use model_lib.Network.Pool.Fresh.{configured-IsFresh}
use model_lib.Network.Pool.Sealed.{weight, IsSealedOnce}

fill-IsSealedOnce : (s : Pool) → IsSealedOnce s → IsSealedOnce (fill s)
unfolding fill weight
fill-IsSealedOnce s once = elim (List-cases s.output_messages) [
  | inl e ↦ rw (e, fill) (record { sealed = λ x. once.sealed x })
  | inr (m, ms, e) ↦ rw (e, fill) once
]

-- A fresh message is in no queue, and its count of headers starts again.
configure-IsSealedOnce :
    (p c : ℕ) (auto : Bool) (m : ℕ) (ms : List ℕ) (s : Pool)
    → refs m s ≡ 0
    → IsSealedOnce s
    → IsSealedOnce (configure_output_message m p c auto (record s { output_messages = ms }))
unfolding configure_output_message on_message on_protocol on_connection weight refs
configure-IsSealedOnce p c auto m ms s unused once = record {
  sealed = λ x. elim (Bool-cases (x == m)) [
    | inl e ↦
        let eq : x ≡ m = ground (arith, e) in
        let unused_x : count x s.outside + count x s.auto_send + count x s.add_queue ≡ 0 =
          rw eq unused in
        ground (arith, e, unused_x, count-append x m s.auto_send)
    | inr e ↦ ground (arith, e, once.sealed x, count-append x m s.auto_send)
  ];
}

take_message-IsSealedOnce :
    (p c : ℕ) (auto : Bool) (s : Pool)
    → IsOnce s
    → IsSealedOnce s
    → IsSealedOnce (take_message p c auto s).1
unfolding take_message
take_message-IsSealedOnce p c auto s placed once = elim (List-cases (fill s).output_messages) [
  | inl e ↦ rw (e, take_message) (fill-IsSealedOnce s once)
  | inr (m, ms, e) ↦
      let fresh = configured-IsFresh p c auto m ms (fill s) e (fill-IsOnce s placed) in
      rw (e, take_message)
        (configure-IsSealedOnce p c auto m ms (fill s) fresh.unused (fill-IsSealedOnce s once))
]

pub get_output_message-IsSealedOnce :
    (p : ℕ) (auto : Bool) (s : Pool)
    → IsOnce s
    → IsSealedOnce s
    → IsSealedOnce (get_output_message p auto s).1
unfolding get_output_message
get_output_message-IsSealedOnce p auto s placed once =
    if-closed (λ (r : Option ℕ × Pool). IsSealedOnce r.1) s.is_shutdown _ _ once
      (connected (s.protocols p).connection)
  where
    connected :
        (o : Option ℕ)
        → IsSealedOnce
            (elim o as (λ x. Option ℕ × Pool) [
              | none ↦ (none, s)
              | some c ↦ take_message p c auto s
            ]).1
    connected none = once
    connected (some c) = take_message-IsSealedOnce p c auto s placed once

-- A change that no queue and no headers take part in.
pub on_protocol-IsSealedOnce :
    (p : ℕ) (f : Protocol → Protocol) (s : Pool) → IsSealedOnce s → IsSealedOnce (on_protocol p f s)
unfolding on_protocol weight
on_protocol-IsSealedOnce p f s once = record { sealed = λ x. once.sealed x }

pub on_connection-IsSealedOnce :
    (c : ℕ) (f : Connection → Connection) (s : Pool)
    → IsSealedOnce s
    → IsSealedOnce (on_connection c f s)
unfolding on_connection weight
on_connection-IsSealedOnce c f s once = record { sealed = λ x. once.sealed x }

pub get_output_buffer-IsSealedOnce :
    (p : ℕ) (s : Pool) → IsOnce s → IsSealedOnce s → IsSealedOnce (get_output_buffer p s).1
unfolding get_output_buffer
get_output_buffer-IsSealedOnce p s placed once = given (s.protocols p).output_buffer
  where
    given :
        (o : Option ℕ)
        → IsSealedOnce
            (elim o as (λ x. Option ℕ × Pool) [
              | some m ↦ (some m, s)
              | none ↦
                  let (o, t) = get_output_message p true s in
                  (o, on_protocol p (λ r. record r { output_buffer = o }) t)
            ]).1
    given (some m) = once
    given none =
        on_protocol-IsSealedOnce p
          (λ r. record r { output_buffer = (get_output_message p true s).0 })
          (get_output_message p true s).1 (get_output_message-IsSealedOnce p true s placed once)
