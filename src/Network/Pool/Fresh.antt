-- ===== src/Network/Pool/Fresh.antt =====
-- What `getOutputMessage` of src/outputmessage.cpp gives out.
use model_lib.Prelude.{
  ℕ, ◌≡◌, refl, ap, sym, ◌∙◌, Bool, false, if◌then◌else◌, Option, none, some, List, [], ◌∷◌, arith,
  inl, inr,
}
use model_lib.Prelude.Pointers.{count, count-append}
use model_lib.Network.Pool.{
  Pool, on_message, on_connection, on_protocol, configure_output_message, fill, take_message,
  get_output_message,
}
use model_lib.Network.Pool.Once.{refs, places, IsOnce}
use model_lib.Network.Pool.Taking.{List-cases, fill-IsOnce}

pub record IsFresh (auto : Bool) (s t : Pool) (m : ℕ) : Type 0 where
  pub unused : refs m s ≡ 0
  pub untasked : count m s.tasks ≡ 0
  pub held : refs m t ≡ (if auto then 2 else 1)
  pub gone : count m t.output_messages ≡ 0

fill_refs : (x : ℕ) (s : Pool) → (refs x (fill s) ≡ refs x s) × ((fill s).tasks ≡ s.tasks)
unfolding fill refs
fill_refs x s = elim (List-cases s.output_messages) [
  | inl e ↦ rw (e, fill) (refl, refl)
  | inr (m, ms, e) ↦ rw (e, fill) (refl, refl)
]

pub configured-IsFresh :
    (p c : ℕ) (auto : Bool) (m : ℕ) (ms : List ℕ) (s : Pool)
    → s.output_messages ≡ m ∷ ms
    → IsOnce s
    → IsFresh auto s (configure_output_message m p c auto (record s { output_messages = ms })) m
unfolding configure_output_message on_message on_protocol on_connection places refs count
configured-IsFresh p c auto m ms s e once =
    let at = once.once m in
    let head = ap (count m) e in
    let queue = count-append m m s.auto_send in
    record {
      unused = ground (arith, at, head, queue);
      untasked = ground (arith, at, head, queue);
      held = ground (arith, at, head, queue);
      gone = ground (arith, at, head, queue);
    }

fill_head : (s : Pool) → (m : ℕ) × (ms : List ℕ) × ((fill s).output_messages ≡ m ∷ ms)
unfolding fill
fill_head s = elim (List-cases s.output_messages) [
  | inl e ↦ (s.allocated, [], rw (e, fill) refl)
  | inr (m, ms, e) ↦ (m, ms, rw (e, fill) e)
]

abbrev pub IsGiven : Bool → Pool → Option ℕ × Pool → Type 0
IsGiven auto s r = (m : ℕ) × (r.0 ≡ some m) × IsFresh auto s r.1 m

take_message-IsGiven :
    (p c : ℕ) (auto : Bool) (s : Pool) → IsOnce s → IsGiven auto s (take_message p c auto s)
unfolding take_message
take_message-IsGiven p c auto s once =
    let (m, ms, e) = fill_head s in
    let fresh = configured-IsFresh p c auto m ms (fill s) e (fill-IsOnce s once) in
    let (pointers, tasks) = fill_refs m s in
    (
      m,
      rw (e, take_message) refl,
      rw (e, take_message)
          (record {
            unused = sym pointers ∙ fresh.unused;
            untasked = sym (ap (count m) tasks) ∙ fresh.untasked;
            held = fresh.held;
            gone = fresh.gone;
          }),
    )

get_output_message-take_message :
    (p c : ℕ) (auto : Bool) (s : Pool)
    → s.is_shutdown ≡ false
    → (s.protocols p).connection ≡ some c
    → get_output_message p auto s ≡ take_message p c auto s
unfolding get_output_message
get_output_message-take_message p c auto s = connected s.is_shutdown (s.protocols p).connection
  where
    connected :
        (b : Bool) (o : Option ℕ)
        → b ≡ false
        → o ≡ some c
        → (if b then (none, s) else elim o as (λ x. Option ℕ × Pool) [
          | none ↦ (none, s)
          | some d ↦ take_message p d auto s
        ])
          ≡ take_message p c auto s
    connected b o e f = rw (e, f) refl

-- A pool that is not stopped gives a message to a protocol that has a connection, and it is one that
-- nobody had a pointer to and that no task was to release; now it is not in the pool, and it has one
-- pointer, or two where it is sent by itself. Every message was in one place before.
pub get_output_message-IsFresh :
    (p c : ℕ) (auto : Bool) (s : Pool)
    → IsOnce s
    → s.is_shutdown ≡ false
    → (s.protocols p).connection ≡ some c
    → IsGiven auto s (get_output_message p auto s)
get_output_message-IsFresh p c auto s once running connected =
    rw (get_output_message-take_message p c auto s running connected)
      (take_message-IsGiven p c auto s once)
