-- ===== src/Network/Pool/Machine.antt =====
-- The steps that the threads of src/outputmessage.cpp, protocol.cpp and connection.cpp take with the pool.
use model_lib.Prelude.{ℕ, Bool, true, false, ◌&&◌, ltb, if◌then◌else◌, Option, List, [], ◌∷◌}
use model_lib.Prelude.Pointers.{contains, erase}
use model_lib.Network.Pool.{
  Pool, get_output_buffer, get_output_message, internal_release_message, on_connection, on_protocol,
  release,
}
use model_lib.Network.Pool.Output.{connection_send, on_write, send, send_all}

-- What the threads do: take a message or an output buffer, send a message by the pool or, as
-- src/manager.cpp does, by the connection alone, copy or drop a shared pointer, end a write, send all, run a task that releases a message, start a frame, open or close a
-- connection, stop the pool, and stop the dispatcher.
pub data Command : Type 0 where
  take_one : ℕ → Bool → Command
  take_buffer : ℕ → Command
  send_one copy drop_one run_release : ℕ → Command
  end_write : ℕ → Bool → ℕ → Command
  send_every : ℕ → (ℕ → ℕ) → Command
  start_frame : ℕ → Command
  set_connection : ℕ → Option ℕ → Command
  set_open : ℕ → Bool → Command
  send_direct : ℕ → ℕ → Command
  stop stop_dispatching : Command

-- One of these steps; without a pointer a message is neither sent, copied nor dropped, and a write ends
-- when one is under way. A message that is sent goes when its last pointer goes with the call.
unfoldable pub step : Bool → Command → Pool → Pool
unfolding get_output_message get_output_buffer send connection_send release send_all
    internal_release_message on_write on_connection on_protocol
step slow (take_one p auto) s = (get_output_message p auto s).1
step slow (take_buffer p) s = (get_output_buffer p s).1
step slow (send_one m) s = if contains m s.outside then release m (send slow m s) else s
step slow (copy m) s = if contains m s.outside then record s { outside = m ∷ s.outside } else s
step slow (drop_one m) s =
    if contains m s.outside then release m (record s { outside = erase m s.outside }) else s
step slow (run_release m) s =
    if contains m s.tasks
    then internal_release_message m (record s { tasks = erase m s.tasks })
    else s
step slow (end_write c failed m) s =
    if contains m s.outside && ltb 0 (s.connections c).pending_write
    then on_write c failed m s
    else s
step slow (send_every now size) s = send_all now size slow s
step slow (start_frame now) s = record s { frame_time = now; is_shutdown = false }
step slow (set_connection p c) s = on_protocol p (λ r. record r { connection = c }) s
step slow (set_open c b) s = on_connection c (λ r. record r { open_state = b }) s
step slow (send_direct c m) s =
    if contains m s.outside then release m (connection_send slow c m s).1 else s
step slow stop s = record s { is_shutdown = true }
step slow stop_dispatching s = record s { is_dispatching = false }

unfoldable pub run : Bool → List Command → Pool → Pool
unfolding step
run slow [] s = s
run slow (c ∷ cs) s = run slow cs (step slow c s)
