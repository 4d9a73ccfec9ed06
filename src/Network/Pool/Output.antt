-- ===== src/Network/Pool/Output.antt =====
-- How messages of the pool are sent: `send`, `sendAll` and `autoSend` of src/outputmessage.cpp,
-- `onSendMessage` of src/protocol.cpp, and `send`, `internalSend` and `onWrite` of src/connection.cpp.
use model_lib.Prelude.{
  ℕ, ◌+◌, ◌-◌, ◌%◌, ◌^◌, Bool, true, false, ◌&&◌, ◌||◌, not, ltb, ◌==◌, if◌then◌else◌, Option, none,
  some, List, [], ◌∷◌, ◌++◌,
}
use model_lib.Prelude.Pointers.{erase}
use model_lib.Network.Pool.{
  OutputMessageState, Pool, on_connection, on_message, on_protocol, release, state_allocated,
  state_allocated_no_autosend, state_free, state_waiting,
}

abbrev pub is_message : ℕ → Option ℕ → Bool
is_message m none = false
is_message m (some x) = x == m

-- What `Protocol::onSendMessage` does to a message besides what is in it: headers, and the output
-- buffer's pointer goes.
unfoldable pub seal_by : ℕ → ℕ → Pool → Pool
unfolding on_message on_protocol
seal_by p m s =
    let t = on_message m (λ r. record r { seals = r.seals + 1 }) s in
    if is_message m (s.protocols p).output_buffer
    then on_protocol p (λ r. record r { output_buffer = none })
        (record t { outside = erase m t.outside })
    else t

unfoldable pub seal : ℕ → Pool → Pool
unfolding seal_by
seal m s = elim (s.messages m).protocol [ none ↦ s | some p ↦ seal_by p m s ]

-- `internalSend`: the write holds the message.
unfoldable pub internal_send : ℕ → ℕ → Pool → Pool
unfolding on_connection
internal_send c m s =
    let t = on_connection c (λ r. record r { pending_write = r.pending_write + 1 }) s in
    record t { outside = m ∷ t.outside }

-- `autoSend` of the pool
unfoldable pub auto_send_later : ℕ → Pool → Pool
auto_send_later m s = record s { add_queue = s.add_queue ++ m ∷ [] }

-- `Connection::send`; `slow` is FORCE_CLOSE_SLOW_CONNECTION.
unfoldable pub connection_send : Bool → ℕ → ℕ → Pool → Bool × Pool
unfolding internal_send seal auto_send_later on_connection
connection_send slow c m s =
    if not (s.connections c).open_state
    then (false, s)
    else if (s.connections c).pending_write == 0
    then (true, internal_send c m (seal m s))
    else if ltb 100 (s.connections c).pending_write && slow
    then (true, on_connection c (λ r. record r { open_state = false }) s)
    else (true, auto_send_later m s)

-- How `send` and `sendAll` send a message, to its connection if it has one.
unfoldable pub send_to : Bool → Option ℕ → ℕ → Pool → Pool
unfolding connection_send
send_to slow none m s = s
send_to slow (some c) m s = let r = connection_send slow c m s in if r.0 then r.1 else seal m r.1

abbrev pub is_no_autosend : OutputMessageState → Bool
is_no_autosend state_free = false
is_no_autosend state_allocated = false
is_no_autosend state_allocated_no_autosend = true
is_no_autosend state_waiting = false

-- `OutputMessagePool::send`
unfoldable pub send : Bool → ℕ → Pool → Pool
unfolding send_to
send slow m s =
    if is_no_autosend (s.messages m).state then send_to slow (s.messages m).connection m s else s

-- A difference of times, in 64 bits.
unfoldable pub since : ℕ → ℕ → ℕ
since now frame = (now + 2 ^ 64 - frame) % 2 ^ 64

-- The first loop of `sendAll`, over what is left of the queue: old messages are dropped, the others are
-- moved on.
unfoldable pub move_queue : ℕ → List ℕ → Pool → Pool
unfolding seal release on_message
move_queue now [] s = s
move_queue now (m ∷ ms) s = move_queue now ms (
    if ltb 10000 (since now (s.messages m).frame)
    then (let t = seal m s in release m (record t { add_queue = erase m t.add_queue }))
    else (let t = on_message m (λ r. record r { state = state_allocated }) s in
        record t { auto_send = t.auto_send ++ m ∷ [] }))

-- The second loop: messages of more than 1 kb, or of more than 10 ms, are sent.
unfoldable pub send_autos : (ℕ → ℕ) → Bool → List ℕ → Pool → Pool
unfolding send_to release
send_autos size slow [] s = s
send_autos size slow (m ∷ ms) s = send_autos size slow ms (
    if ltb 1024 (size m) || ltb 10 (since s.frame_time (s.messages m).frame)
    then (let t = send_to slow (s.messages m).connection m s in
        release m (record t { auto_send = erase m t.auto_send }))
    else s)

unfoldable pub send_all : ℕ → (ℕ → ℕ) → Bool → Pool → Pool
unfolding move_queue send_autos
send_all now size slow s =
    let t = move_queue now s.add_queue s in
    let u = record t { add_queue = [] } in send_autos size slow u.auto_send u

-- `Connection::onWrite`; `failed` is whether there was an error, which `handleWriteError` keeps.
unfoldable pub on_write : ℕ → Bool → ℕ → Pool → Pool
unfolding release on_connection
on_write c failed m s =
    let t = release m (record s { outside = erase m s.outside }) in
    let u = if failed then on_connection c (λ r. record r { open_state = false }) t else t in
    if (u.connections c).open_state
    then on_connection c (λ r. record r { pending_write = r.pending_write - 1 }) u
    else u
