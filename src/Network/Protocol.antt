-- ===== src/Network/Protocol.antt =====
-- src/outputmessage.h, outputmessage.cpp, protocol.cpp and connection.cpp: headers, encryption and
-- checksum of a message on its way out and in.
pub mod Encrypt
pub mod Overfull
pub mod Packet
use model_lib.Prelude.{
  ℕ, ◌+◌, ◌-◌, ◌*◌, ◌/◌, ◌%◌, Bool, true, false, ◌&&◌, ◌||◌, not, ltb, leb, ◌==◌, if◌then◌else◌,
  ◌>>=◌, Option, none, some, List, ◌++◌, length, take, drop,
}
use model_lib.Prelude.Words.{u16_mod, u32_mod}
use model_lib.Network.Buffer.{write_at, read_at, to_bytes}
use model_lib.Network.Message.{Message, put_padding, get, skip, network_max_size}
use model_lib.Network.Xtea.{Key, encrypt_blocks, decrypt_blocks}

-- An `OutputMessage`: the headers are written downwards from `m_outputBufferStart`.
pub record Output : Type 0 where
  pub msg : Message
  pub output_start : ℕ

-- `addHeader<T>`, at a type of `n` bytes
unfoldable pub add_header : ℕ → ℕ → Output → Output
add_header n value o = if ltb o.output_start n then o else record {
  msg = record (o.msg) {
    buffer = write_at (o.output_start - n) (to_bytes n value) (o.msg.buffer);
    size = (o.msg.size + n) % u16_mod;
  };
  output_start = o.output_start - n;
}

unfoldable pub write_message_length : Output → Output
write_message_length o = add_header 2 o.msg.size o

-- The four bytes of a digest, as `adlerChecksum` reads them. The digest of Crypto++ is a parameter.
pub record Digest : Type 0 where
  pub d0 : ℕ
  pub d1 : ℕ
  pub d2 : ℕ
  pub d3 : ℕ

module _ (calculate_digest : List ℕ → Digest) where
  unfoldable pub adler_checksum : ℕ → List ℕ → ℕ
  adler_checksum n bytes =
      let d = calculate_digest bytes in
      if ltb network_max_size n || n == 0
      then 0
      else ((d.d0 * 256 + d.d1) * 65536 + (d.d2 * 256 + d.d3)) % u32_mod

  unfoldable pub add_crypto_header : Bool → Output → Output
  unfolding add_header
  add_crypto_header add_checksum o =
      let sum = adler_checksum o.msg.size (read_at o.output_start o.msg.size o.msg.buffer) in
      let o' = if add_checksum then add_header 4 sum o else o in add_header 2 o'.msg.size o'

  -- The start of `Connection::parsePacket`: a matching checksum is skipped. The flag says whether it
  -- matched.
  unfoldable pub check_sum : Message → Option (Bool × Message)
  check_sum m =
      let n = (m.size + u32_mod + u32_mod - m.position - 4) % u32_mod in
      let checksum =
        if ltb 0 n then adler_checksum n (read_at (m.position + 4) n m.buffer) else 0 in
      get 4 true m >>= (λ r. some (if r.0 == checksum then (true, skip 4 m) else (false, m)))

-- The rounds of `while(readPos < messageLength / 4)`, where each adds 2 to `readPos`.
abbrev pub blocks_of : ℕ → ℕ
blocks_of message_length = (message_length / 4 + 1) / 2

unfoldable pub xtea_encrypt : Key → Output → Output
xtea_encrypt k o =
    let n = 8 - o.msg.size % 8 in
    let m = if o.msg.size % 8 == 0 then o.msg else put_padding n o.msg in
    let message_length = if o.msg.size % 8 == 0 then o.msg.size else o.msg.size + n in
    record o {
      msg = record m {
        buffer =
            take o.output_start m.buffer
            ++ encrypt_blocks (blocks_of message_length) k (drop o.output_start m.buffer);
      };
    }

-- The size test is on `int` values: below 6 the remainder is not 0.
unfoldable pub xtea_decrypt : Key → Message → Option (Bool × Message)
xtea_decrypt k m =
    if not (leb 6 m.size && (m.size - 6) % 8 == 0)
    then some (false, m)
    else let m' = record m {
      buffer =
          take m.position m.buffer
          ++ decrypt_blocks (blocks_of (m.size - 6)) k (drop m.position m.buffer);
    } in
      get 2 false m' >>= (λ r.
        if ltb m.size (r.0 + 8)
        then some (false, r.1)
        else some (true, record (r.1) { size = r.0 % u16_mod }))

-- `onSendMessage` without compression; what changes of the protocol itself is `m_outputBuffer`.
pub record ProtocolConfig : Type 0 where
  pub key : Key
  pub raw_messages : Bool
  pub encryption_enabled : Bool
  pub checksum_enabled : Bool

unfoldable pub on_send_message : (List ℕ → Digest) → ProtocolConfig → Output → Output
on_send_message digest p o =
    if p.raw_messages
    then o
    else let o1 = write_message_length o in
      let o2 = if p.encryption_enabled then xtea_encrypt p.key o1 else o1 in
      if p.checksum_enabled then add_crypto_header digest p.checksum_enabled o2 else o2

-- `onRecvMessage`: the message that `parsePacket` gets. The result of `XTEA_decrypt` is not read.
unfoldable pub on_recv_message : ProtocolConfig → Message → Option Message
on_recv_message p m =
    if p.encryption_enabled then xtea_decrypt p.key m >>= (λ r. some r.1) else some m
