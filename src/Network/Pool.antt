-- ===== src/Network/Pool.antt =====
-- `OutputMessagePool` of src/outputmessage.h and outputmessage.cpp, with the part of `Connection` in
-- src/connection.cpp that sends a message. A message is a number that stands for its address; what is
-- in it is no part of this model but for its size.
pub mod Output
pub mod Machine
pub mod Once
pub mod Sending
pub mod SendAll
pub mod Taking
pub mod Steps
pub mod Fresh
pub mod Sealed
mod Tests
use model_lib.Prelude.{
  ℕ, zero, suc, ◌+◌, ◌-◌, ◌%◌, ◌^◌, Bool, true, false, ◌&&◌, ◌||◌, not, ltb, ◌==◌, if◌then◌else◌,
  Option, none, some, List, [], ◌∷◌, ◌++◌,
}
use model_lib.Prelude.Pointers.{contains, erase}

pub data OutputMessageState : Type 0 where
  state_free state_allocated state_allocated_no_autosend state_waiting : OutputMessageState

-- `seals` is how often `onSendMessage` has put headers on the message since it was given out.
pub record Message : Type 0 where
  pub state : OutputMessageState
  pub protocol : Option ℕ
  pub connection : Option ℕ
  pub frame : ℕ
  pub seals : ℕ

-- A connection: whether it is open and without a write error, and how many of its writes are under
-- way; `on_write` is run for one of these.
pub record Connection : Type 0 where
  pub open_state : Bool
  pub pending_write : ℕ
  pub refs : ℕ

-- A protocol: its connection, and `m_outputBuffer`.
pub record Protocol : Type 0 where
  pub connection : Option ℕ
  pub output_buffer : Option ℕ
  pub refs : ℕ

-- `output_messages` has the back first. `outside` are all the other shared pointers to messages, those
-- of output buffers and of writes among them; `tasks` are the messages that tasks of the dispatcher are
-- to release, and `lost` those whose task the dispatcher has thrown away, as it does when it does not
-- run (`is_dispatching`); `allocated` is how many messages there are, which are the numbers below it.
pub record Pool : Type 0 where
  pub output_messages : List ℕ
  pub auto_send : List ℕ
  pub add_queue : List ℕ
  pub outside : List ℕ
  pub tasks : List ℕ
  pub lost : List ℕ
  pub allocated : ℕ
  pub messages : ℕ → Message
  pub connections : ℕ → Connection
  pub protocols : ℕ → Protocol
  pub frame_time : ℕ
  pub is_shutdown : Bool
  pub is_dispatching : Bool

abbrev pub free_message : Message
free_message = record {
  state = state_free;
  protocol = none;
  connection = none;
  frame = 0;
  seals = 0;
}

-- The numbers below one, the last first.
unfoldable pub below : ℕ → List ℕ
below zero = []
below (suc n) = n ∷ below n

-- OUTPUT_POOL_SIZE
abbrev pub output_pool_size : ℕ
output_pool_size = 100

-- The constructor, beside the connections and protocols that there are.
unfoldable pub new_pool : ℕ → (ℕ → Connection) → (ℕ → Protocol) → Pool
unfolding below
new_pool now connections protocols = record {
  output_messages = below output_pool_size;
  auto_send = [];
  add_queue = [];
  outside = [];
  tasks = [];
  lost = [];
  allocated = output_pool_size;
  messages = λ m. free_message;
  connections = connections;
  protocols = protocols;
  frame_time = now;
  is_shutdown = false;
  is_dispatching = true;
}

unfoldable pub on_message : ℕ → (Message → Message) → Pool → Pool
on_message m f s = record s { messages = λ x. if x == m then f (s.messages x) else s.messages x }

unfoldable pub on_connection : ℕ → (Connection → Connection) → Pool → Pool
on_connection c f s = record s {
  connections = λ x. if x == c then f (s.connections x) else s.connections x;
}

unfoldable pub on_protocol : ℕ → (Protocol → Protocol) → Pool → Pool
on_protocol p f s = record s {
  protocols = λ x. if x == p then f (s.protocols x) else s.protocols x;
}

abbrev add_ref : ℕ → ℕ
add_ref n = (n + 1) % 2 ^ 32

abbrev un_ref : ℕ → ℕ
un_ref n = (n + 2 ^ 32 - 1) % 2 ^ 32

-- What the last shared pointer to a message does: `releaseMessage`, with `addTask` of the dispatcher.
unfoldable pub release : ℕ → Pool → Pool
release m s =
    if contains m s.outside || contains m s.auto_send || contains m s.add_queue
    then s
    else if s.is_dispatching
    then record s { tasks = m ∷ s.tasks }
    else record s { lost = m ∷ s.lost }

unfoldable pub un_ref_protocol : Option ℕ → Pool → Pool
un_ref_protocol none s = s
un_ref_protocol (some p) s = on_protocol p (λ r. record r { refs = un_ref r.refs }) s

unfoldable pub un_ref_connection : Option ℕ → Pool → Pool
un_ref_connection none s = s
un_ref_connection (some c) s = on_connection c (λ r. record r { refs = un_ref r.refs }) s

unfoldable pub internal_release_message : ℕ → Pool → Pool
unfolding un_ref_protocol un_ref_connection on_message
internal_release_message m s =
    let t =
      on_message m (λ r. free_message)
        (un_ref_connection (s.messages m).connection (un_ref_protocol (s.messages m).protocol s)) in
    record t { output_messages = m ∷ t.output_messages }

-- `configureOutputMessage`, for a message that is taken from the pool. The shared pointer that is
-- returned is outside.
unfoldable pub configure_output_message : ℕ → ℕ → ℕ → Bool → Pool → Pool
unfolding on_message on_connection on_protocol
configure_output_message m p c auto s =
    let t =
      on_connection c (λ r. record r { refs = add_ref r.refs })
        (on_protocol p (λ r. record r { refs = add_ref r.refs })
          (on_message m
            (λ r. record {
              state = if auto then state_allocated else state_allocated_no_autosend;
              protocol = some p;
              connection = some c;
              frame = s.frame_time;
              seals = 0;
            })
            s)) in
    record t {
      auto_send = if auto then t.auto_send ++ m ∷ [] else t.auto_send;
      outside = m ∷ t.outside;
    }

-- The pool with a message in it.
unfoldable pub fill : Pool → Pool
fill s = elim s.output_messages [
  | [] ↦ record s { output_messages = s.allocated ∷ []; allocated = s.allocated + 1 }
  | m ∷ ms ↦ s
]

-- `getOutputMessage`: the message, if there is one.
unfoldable pub take_message : ℕ → ℕ → Bool → Pool → Option ℕ × Pool
unfolding fill configure_output_message
take_message p c auto s = elim (fill s).output_messages [
  | [] ↦ (none, fill s)
  | m ∷ ms ↦
      (some m, configure_output_message m p c auto (record (fill s) { output_messages = ms }))
]

unfoldable pub get_output_message : ℕ → Bool → Pool → Option ℕ × Pool
unfolding take_message
get_output_message p auto s =
    if s.is_shutdown
    then (none, s)
    else elim (s.protocols p).connection [ none ↦ (none, s) | some c ↦ take_message p c auto s ]

-- `Protocol::getOutputBuffer`
unfoldable pub get_output_buffer : ℕ → Pool → Option ℕ × Pool
unfolding get_output_message on_protocol
get_output_buffer p s = elim (s.protocols p).output_buffer [
  | some m ↦ (some m, s)
  | none ↦
      let (o, t) = get_output_message p true s in
      (o, on_protocol p (λ r. record r { output_buffer = o }) t)
]
