-- ===== src/Network/Pool/Taking.antt =====
-- `getOutputMessage` of src/outputmessage.cpp and `getOutputBuffer` of src/protocol.cpp, which give out
-- messages of the pool.
use model_lib.Prelude.{
  ℕ, ◌+◌, ◌≡◌, refl, ap, Bool, true, false, if◌then◌else◌, Option, none, some, List, [], ◌∷◌, arith,
  ◌⊎◌, inl, inr,
}
use model_lib.Prelude.Pointers.{count, count-append}
use model_lib.Network.Pool.{
  Pool, Connection, Protocol, on_message, on_connection, on_protocol, configure_output_message,
  fill, take_message, get_output_message, get_output_buffer,
}
use model_lib.Network.Pool.Once.{refs, places, IsOnce, quiet-IsOnce}

pub List-cases : (l : List ℕ) → (l ≡ []) ⊎ ((m : ℕ) × (ms : List ℕ) × (l ≡ m ∷ ms))
List-cases [] = inl refl
List-cases (m ∷ ms) = inr (m, ms, refl)

grown-IsOnce :
    (s : Pool)
    → s.output_messages ≡ []
    → IsOnce s
    → IsOnce (record s { output_messages = s.allocated ∷ []; allocated = s.allocated + 1 })
unfolding places refs count
grown-IsOnce s e once = record {
  kept = once.kept;
  once = λ x. ground (arith, once.once x, ap (count x) e);
}

pub fill-IsOnce : (s : Pool) → IsOnce s → IsOnce (fill s)
unfolding fill
fill-IsOnce s once = elim (List-cases s.output_messages) [
  | inl e ↦ rw (e, fill) (grown-IsOnce s e once)
  | inr (m, ms, e) ↦ rw (e, fill) once
]

-- A message of the pool is given to somebody.
configure-IsOnce :
    (p c : ℕ) (auto : Bool) (m : ℕ) (ms : List ℕ) (s : Pool)
    → s.output_messages ≡ m ∷ ms
    → IsOnce s
    → IsOnce (configure_output_message m p c auto (record s { output_messages = ms }))
unfolding configure_output_message on_message on_protocol on_connection places refs count
configure-IsOnce p c auto m ms s e once = record {
  kept = once.kept;
  once = λ x. ground (arith, once.once x, ap (count x) e, count-append x m s.auto_send);
}

take_message-IsOnce :
    (p c : ℕ) (auto : Bool) (s : Pool) → IsOnce s → IsOnce (take_message p c auto s).1
unfolding take_message
take_message-IsOnce p c auto s once = elim (List-cases (fill s).output_messages) [
  | inl e ↦ rw (e, take_message) (fill-IsOnce s once)
  | inr (m, ms, e) ↦
      rw (e, take_message) (configure-IsOnce p c auto m ms (fill s) e (fill-IsOnce s once))
]

if-IsOnce :
    (b : Bool) (r r' : Option ℕ × Pool) → IsOnce r.1 → IsOnce r'.1 → IsOnce (if b then r else r').1
if-IsOnce true r r' h k = h
if-IsOnce false r r' h k = k

pub get_output_message-IsOnce :
    (p : ℕ) (auto : Bool) (s : Pool) → IsOnce s → IsOnce (get_output_message p auto s).1
unfolding get_output_message
get_output_message-IsOnce p auto s once =
    if-IsOnce s.is_shutdown _ _ once (connected (s.protocols p).connection)
  where
    connected :
        (o : Option ℕ)
        → IsOnce
            (elim o as (λ x. Option ℕ × Pool) [
              | none ↦ (none, s)
              | some c ↦ take_message p c auto s
            ]).1
    connected none = once
    connected (some c) = take_message-IsOnce p c auto s once

-- A change that no pointer and no list of messages takes part in.
pub on_protocol-IsOnce :
    (p : ℕ) (f : Protocol → Protocol) (s : Pool) → IsOnce s → IsOnce (on_protocol p f s)
unfolding on_protocol refs
on_protocol-IsOnce p f s = quiet-IsOnce s _ refl refl refl refl refl (λ x. refl)

pub on_connection-IsOnce :
    (c : ℕ) (f : Connection → Connection) (s : Pool) → IsOnce s → IsOnce (on_connection c f s)
unfolding on_connection refs
on_connection-IsOnce c f s = quiet-IsOnce s _ refl refl refl refl refl (λ x. refl)

pub get_output_buffer-IsOnce : (p : ℕ) (s : Pool) → IsOnce s → IsOnce (get_output_buffer p s).1
unfolding get_output_buffer
get_output_buffer-IsOnce p s once = given (s.protocols p).output_buffer
  where
    given :
        (o : Option ℕ)
        → IsOnce
            (elim o as (λ x. Option ℕ × Pool) [
              | some m ↦ (some m, s)
              | none ↦
                  let (o, t) = get_output_message p true s in
                  (o, on_protocol p (λ r. record r { output_buffer = o }) t)
            ]).1
    given (some m) = once
    given none =
        on_protocol-IsOnce p (λ r. record r { output_buffer = (get_output_message p true s).0 })
          (get_output_message p true s).1 (get_output_message-IsOnce p true s once)
