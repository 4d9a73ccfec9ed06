-- ===== src/Network/Protocol/Overfull.antt =====
-- Messages so long that the padding of `XTEA_encrypt` finds no room (src/protocol.cpp).
use model_lib.Prelude.{ℕ, ◌+◌, ◌-◌, ◌%◌, ◌≤◌, ◌<◌, ◌≡◌, ◌≢◌, ◌∙◌, true, false, some, List, arith}
use model_lib.Network.Message.{Message, put_padding, has_space, network_max_size}
use model_lib.Network.Xtea.{Key}
use model_lib.Network.Protocol.{
  Output, Digest, ProtocolConfig, add_header, write_message_length, xtea_encrypt, xtea_decrypt,
  add_crypto_header, on_send_message, on_recv_message,
}

-- A payload of `n` bytes behind the header bytes, with the position where it ends.
pub record IsPayload (o : Output) (n : ℕ) : Type 0 where
  pub start : o.output_start ≡ 8
  pub position : o.msg.position ≡ 8 + n
  pub size : o.msg.size ≡ n
  pub writable : 8 + n < network_max_size - 16

write_message_length-counts :
    (o : Output) (n : ℕ)
    → IsPayload o n
    → let q = write_message_length o in
      (q.output_start ≡ 6) × (q.msg.size ≡ n + 2) × (q.msg.position ≡ 8 + n)
unfolding write_message_length add_header
write_message_length-counts o n v = ground arith

put_padding-no_room :
    (amount : ℕ) (m : Message)
    → amount ≤ 8
    → network_max_size - 16 ≤ m.position + amount
    → put_padding amount m ≡ m
unfolding put_padding has_space
put_padding-no_room amount m h tight = ground arith

xtea_encrypt-counts :
    (k : Key) (q : Output)
    → q.msg.size % 8 ≢ 0
    → network_max_size - 16 ≤ q.msg.position + (8 - q.msg.size % 8)
    → ((xtea_encrypt k q).output_start ≡ q.output_start)
      × ((xtea_encrypt k q).msg.size ≡ q.msg.size)
unfolding xtea_encrypt
xtea_encrypt-counts k q odd tight = ground (arith, put_padding-no_room (8 - q.msg.size % 8) q.msg)

add_crypto_header-size :
    (digest : List ℕ → Digest) (q : Output)
    → q.output_start ≡ 6
    → q.msg.size < 60000
    → (add_crypto_header digest true q).msg.size ≡ q.msg.size + 6
unfolding add_crypto_header
add_crypto_header-size digest q start small = ground arith

-- A payload that the message still takes, but that leaves no room for the padding that it needs,
-- is sent with a size that is no multiple of eight beside the six header bytes: `XTEA_decrypt` at
-- the other side refuses it, whatever its key, and `onRecvMessage` hands on the encrypted bytes.
pub on_send_message_overfull :
    (digest : List ℕ → Digest) (k k' : Key) (o : Output) (n : ℕ) (m : Message)
    → IsPayload o n
    → (n + 2) % 8 ≢ 0
    → network_max_size - 16 ≤ 8 + n + (8 - (n + 2) % 8)
    → let p : ProtocolConfig = record {
      key = k;
      raw_messages = false;
      encryption_enabled = true;
      checksum_enabled = true;
    } in
      m.size ≡ (on_send_message digest p o).msg.size
      → ((on_send_message digest p o).msg.size ≡ n + 8)
        × (xtea_decrypt k' m ≡ some (false, m))
        × (on_recv_message (record p { key = k' }) m ≡ some m)
unfolding on_send_message on_recv_message
on_send_message_overfull digest k k' o n m v odd tight e = (size, refused, rw refused)
  where
    size :
        (add_crypto_header digest true (xtea_encrypt k (write_message_length o))).msg.size ≡ n + 8
    size =
        let c = write_message_length-counts o n v in
        let x = xtea_encrypt-counts k (write_message_length o) (rw c.1 odd) (rw (c.1, c.2) tight) in
        add_crypto_header-size digest _ (x.0 ∙ c.0) (omega (arith, x.1, c.1, v.writable))
        ∙ omega (arith, x.1, c.1)

    refused : xtea_decrypt k' m ≡ some (false, m)
    refused = unfold xtea_decrypt in rw (e ∙ size) (ground (arith, odd))
