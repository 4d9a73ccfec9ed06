-- ===== src/Network/Pool/Tests.antt =====
-- Examples for the pool of messages.
use model_lib.Prelude.{ℕ, ◌≡◌, refl, List, true, false, some, none, [], ◌∷◌}
use model_lib.Prelude.Pointers.{contains, erase, count}
use model_lib.Network.Pool.{Pool, Connection, Protocol, new_pool, get_output_message}
use model_lib.Network.Pool.Output.{since}
use model_lib.Network.Pool.Machine.{
  Command, take_one, take_buffer, send_one, drop_one, run_release, end_write, send_every,
  start_frame, send_direct, run, step,
}
use model_lib.Network.Pool.Once.{IsOnce}
use model_lib.Network.Pool.Steps.{run_new-IsOnce}
use model_lib.Network.Pool.Sealed.{IsSealedOnce}
use model_lib.Network.Pool.Sealed.Steps.{sends_once, run_new-IsSealedOnce}
use model_lib.Network.Pool.Fresh.{IsFresh, get_output_message-IsFresh}

abbrev open_connection : Connection
open_connection = record { open_state = true; pending_write = 0; refs = 0 }

abbrev connected : Protocol
connected = record { connection = some 0; output_buffer = none; refs = 0 }

abbrev start : Pool
start = new_pool 1000 (λ c. open_connection) (λ p. connected)

-- A message is sent at once, a second one has to wait for the write, and an output buffer for the first
-- `sendAll` that comes more than 10 ms later.
abbrev commands : List Command
commands =
    take_one 0 false
    ∷ send_one 99
    ∷ drop_one 99
    ∷ take_one 0 false
    ∷ send_one 98
    ∷ take_buffer 0
    ∷ start_frame 1020
    ∷ end_write 0 false 99
    ∷ send_every 1020 (λ m. 30)
    ∷ run_release 99
    ∷ []

run_pool : (run false commands start).outside ≡ 97 ∷ 98 ∷ []
unfolding run new_pool contains erase since
run_pool = refl

run_new-IsOnce_example : IsOnce (run false commands start)
run_new-IsOnce_example = run_new-IsOnce false commands 1000 (λ c. open_connection) (λ p. connected)

get_output_message-IsFresh_example :
    (m : ℕ) × ((get_output_message 0 true (run false commands start)).0 ≡ some m)
    × IsFresh true
        (run false commands start)
        (get_output_message 0 true (run false commands start)).1
        m
unfolding run new_pool contains erase since
get_output_message-IsFresh_example =
    get_output_message-IsFresh 0 0 true (run false commands start) run_new-IsOnce_example refl refl

run_new-IsSealedOnce_example : IsSealedOnce (run false commands start)
unfolding sends_once step new_pool contains erase since count
run_new-IsSealedOnce_example =
    run_new-IsSealedOnce false commands 1000 (λ c. open_connection) (λ p. connected) refl

-- The second `send` is counted.
send_twice : sends_once false (take_one 0 false ∷ send_one 99 ∷ send_one 99 ∷ []) start ≡ false
unfolding sends_once step new_pool contains erase since count
send_twice = refl

-- An output buffer that its connection sends is in the list of messages that are sent by themselves too.
sent_twice :
    ((run false
        (take_buffer 0
          ∷ send_direct 0 99
          ∷ end_write 0 false 99
          ∷ start_frame 1020
          ∷ send_every 1020 (λ m. 30)
          ∷ [])
        start).messages
      99).seals
    ≡ 2
unfolding run step new_pool contains erase since
sent_twice = refl
