-- ===== src/Network/Tests.antt =====
-- Tests of the messages, and the theorems at concrete inputs.
use model_lib.Prelude.{
  ℕ, ◌+◌, ◌<◌, ◌≡◌, ◌↔◌, refl, true, false, some, none, List, [], ◌∷◌, length, replicate,
  length-replicate, arith,
}
use model_lib.Prelude.All.{All, replicate-All}
use model_lib.Network.Buffer.{to_bytes, IsByte, read_at, of_bytes}
use model_lib.Network.Message.{Message, get_string, network_max_size}
use model_lib.Network.Message.Fields.{Field, num, text, place, kinds, put_fields, get_fields}
use model_lib.Network.Message.RoundTrip.{get_fields-put_fields}
use model_lib.Network.Message.Bounds.{get_string_overrun}
use model_lib.Network.Xtea.{Key, encrypt_blocks, decrypt_blocks}
use model_lib.Network.Xtea.RoundTrip.{decrypt_blocks-encrypt_blocks}
use model_lib.Network.Protocol.{
  Output, Digest, ProtocolConfig, check_sum, on_send_message, on_recv_message, xtea_decrypt,
}
use model_lib.Network.Protocol.Encrypt.{IsReady}
use model_lib.Network.Protocol.Packet.{
  Arrived, sealed, sealed-Wire, on_recv_message-on_send_message,
}
use model_lib.Network.Protocol.Overfull.{on_send_message_overfull}

blank : List ℕ
blank = replicate network_max_size 0

blank_full : length blank ≡ network_max_size
unfolding blank
blank_full = length-replicate {A = ℕ} network_max_size 0

blank_bytes : All IsByte blank
unfolding blank
blank_bytes = replicate-All IsByte network_max_size 0 (omega arith)

abbrev fresh : Message
fresh = record { buffer = blank; size = 0; position = 8 }

abbrev secret : Key
secret = record { k0 = 1; k1 = 2; k2 = 3; k3 = 4000000000 }

abbrev zero_digest : List ℕ → Digest
zero_digest bytes = record { d0 = 0; d1 = 0; d2 = 0; d3 = 1 }

abbrev greeting : List Field
greeting =
    num 1 0x64
    ∷ text (72 ∷ 105 ∷ [])
    ∷ place (record { x = 1000; y = 65535; z = 7 })
    ∷ num 4 4000000000
    ∷ []

decrypt_blocks-encrypt_blocks_example :
    decrypt_blocks 1 secret (encrypt_blocks 1 secret (1 ∷ 2 ∷ 3 ∷ 4 ∷ 5 ∷ 6 ∷ 7 ∷ 255 ∷ 9 ∷ []))
    ≡ 1 ∷ 2 ∷ 3 ∷ 4 ∷ 5 ∷ 6 ∷ 7 ∷ 255 ∷ 9 ∷ []
decrypt_blocks-encrypt_blocks_example =
    decrypt_blocks-encrypt_blocks 1 secret (1 ∷ 2 ∷ 3 ∷ 4 ∷ 5 ∷ 6 ∷ 7 ∷ 255 ∷ 9 ∷ []) (omega arith)

get_fields-put_fields_example :
    (r : Message) × (get_fields
        (kinds greeting)
        (record (put_fields greeting fresh) { position = 8 })
      ≡ some (greeting, r))
    × (r.position ≡ (put_fields greeting fresh).position)
unfolding to_bytes
get_fields-put_fields_example =
    get_fields-put_fields greeting fresh (record { full = blank_full; inside = omega arith })
      (omega arith) (omega arith) (omega arith)

get_string_overrun_example :
    (get_string false 1000 (record fresh { position = 15000 }) ≡ none)
    ↔ ((network_max_size < 15000 + 1000) × (15000 + 1000 < 16384))
get_string_overrun_example =
    get_string_overrun 1000 (record fresh { position = 15000 }) (omega arith) (omega arith)

-- Ten bytes of payload behind the header bytes.
abbrev ready : Output
ready = record { msg = record { buffer = blank; size = 10; position = 18 }; output_start = 8 }

ready-IsReady : IsReady ready 10
ready-IsReady = record {
  start = refl;
  position = omega arith;
  size = refl;
  full = blank_full;
  bytes = blank_bytes;
  room = omega arith;
}

abbrev arrived : Message
arrived = record { buffer = (sealed zero_digest secret ready).msg.buffer; size = 22; position = 2 }

arrived-Arrived : Arrived 16 (sealed zero_digest secret ready) arrived
arrived-Arrived = record {
  position = refl;
  total = omega arith;
  full = (sealed-Wire zero_digest secret ready 10 ready-IsReady).full;
  same = refl;
}

abbrev config : Key → ProtocolConfig
config k = record {
  key = k;
  raw_messages = false;
  encryption_enabled = true;
  checksum_enabled = true;
}

on_recv_message-on_send_message_example :
    let sent = on_send_message zero_digest (config secret) ready in
    (m' : Message) × (check_sum zero_digest arrived ≡ some (true, record arrived { position = 6 }))
    × (on_recv_message (config secret) (record arrived { position = 6 }) ≡ some m')
    × (m'.size ≡ 10)
    × (m'.position ≡ 8)
    × (read_at 8 10 m'.buffer ≡ read_at 8 10 blank)
    × (of_bytes (read_at sent.output_start 2 sent.msg.buffer) + 2 ≡ sent.msg.size)
on_recv_message-on_send_message_example =
    on_recv_message-on_send_message zero_digest secret ready 10 arrived ready-IsReady
      (unfold on_send_message in arrived-Arrived)

abbrev crowded : Output
crowded = record {
  msg = record { buffer = blank; size = 15335; position = 15343 };
  output_start = 8;
}

abbrev misfit : Message
misfit = record {
  buffer = blank;
  size = (on_send_message zero_digest (config secret) crowded).msg.size;
  position = 6;
}

on_send_message_overfull_example :
    ((on_send_message zero_digest (config secret) crowded).msg.size ≡ 15343)
    × (xtea_decrypt secret misfit ≡ some (false, misfit))
    × (on_recv_message (config secret) misfit ≡ some misfit)
on_send_message_overfull_example =
    on_send_message_overfull zero_digest secret secret crowded 15335 misfit (omega arith)
      (omega arith) (omega arith) refl
