-- ===== src/Network/Protocol/Packet.antt =====
-- A message on the wire: what is sent with encryption and checksum is accepted and decrypted.
use model_lib.Prelude.{
  ℕ, ◌+◌, ◌-◌, ◌*◌, ◌%◌, ◌≤◌, ◌<◌, ◌≡◌, refl, ap, sym, ◌∙◌, subst, true, false, some, List, ◌++◌,
  length, length-take, length-drop, take, drop, take-append, drop-append, take-append-drop,
  take-take, take_all, part_of_take, drop-drop, arith,
}
use model_lib.Prelude.All.{All, take-All, drop-All}
use model_lib.Prelude.Words.{u16_mod, u32_mod}
use model_lib.Network.Buffer.{
  write_at, read_at, to_bytes, of_bytes, IsByte, length-write_at, length-to_bytes, read_at-write_at,
  drop-write_at, of_bytes-to_bytes,
}
use model_lib.Network.Message.{Message, get, skip, network_max_size}
use model_lib.Network.Xtea.{Key, encrypt_blocks, decrypt_blocks}
use model_lib.Network.Xtea.Blocks.{length-encrypt_blocks, decrypt_blocks-append}
use model_lib.Network.Xtea.RoundTrip.{decrypt_blocks-encrypt_blocks}
use model_lib.Network.Protocol.{
  Output, Digest, ProtocolConfig, add_header, write_message_length, xtea_encrypt, xtea_decrypt,
  blocks_of, adler_checksum, add_crypto_header, check_sum, on_send_message, on_recv_message,
}
use model_lib.Network.Protocol.Encrypt.{IsReady, blocks, Encrypted, xtea_encrypt-Encrypted}

-- A header that has room below the message.
add_header-shape :
    (n value start : ℕ) (o : Output)
    → o.output_start ≡ start + n
    → o.msg.size + n < u16_mod
    → add_header n value o ≡ record {
      msg = record (o.msg) {
        buffer = write_at start (to_bytes n value) o.msg.buffer;
        size = o.msg.size + n;
      };
      output_start = start;
    }
unfolding add_header
add_header-shape n value start o e h = ground (arith, e, h)

-- The receiver's copy `m` of the wire, before the checksum is read.
pub record Arrived (size : ℕ) (w : Output) (m : Message) : Type 0 where
  pub position : m.position ≡ 2
  pub total : m.size ≡ size + 6
  pub full : length m.buffer ≡ network_max_size
  pub same : take (size + 6) m.buffer ≡ take (size + 6) w.msg.buffer

module _ (digest : List ℕ → Digest) where
  -- The bytes that go over the wire for an encrypted body `cipher` of `size` bytes.
  pub record Wire (size : ℕ) (cipher : List ℕ) (w : Output) : Type 0 where
    pub start : w.output_start ≡ 0
    pub total : w.msg.size ≡ size + 6
    pub full : length (w.msg.buffer) ≡ network_max_size
    pub header : read_at 0 2 w.msg.buffer ≡ to_bytes 2 (size + 4)
    pub sum : read_at 2 4 w.msg.buffer ≡ to_bytes 4 (adler_checksum digest size cipher)
    pub body : read_at 6 size w.msg.buffer ≡ cipher

  add_crypto_header-Wire :
      (size : ℕ) (e : Output)
      → e.output_start ≡ 6
      → e.msg.size ≡ size
      → size + 6 ≤ network_max_size
      → length (e.msg.buffer) ≡ network_max_size
      → Wire size (read_at 6 size e.msg.buffer) (add_crypto_header digest true e)
  unfolding add_crypto_header
  add_crypto_header-Wire size e start s small full =
      rw (start, s, small_sum)
        (record {
          start = refl;
          total = omega arith;
          full = length-write_at 0 header summed ∙ summed_full;
          header =
              read_at-write_at 2 0 header summed (sym (length-to_bytes 2 (size + 4)))
                (omega (arith, summed_full));
          sum =
              ap (take 4)
                (drop-write_at 2 0 header summed (omega (arith, length-to_bytes 2 (size + 4))))
              ∙ read_at-write_at 4 2 checksum e.msg.buffer (sym (length-to_bytes 4 _))
                  (omega (arith, full));
          body = ap (take size) (
              drop-write_at 6 0 header summed (omega (arith, length-to_bytes 2 (size + 4)))
              ∙ drop-write_at 6 2 checksum e.msg.buffer (omega (arith, length-to_bytes 4 c)));
        })
    where
      small_sum : (size + 4) % u16_mod ≡ size + 4
      small_sum = omega arith

      c : ℕ
      c = adler_checksum digest size (read_at 6 size e.msg.buffer)

      header : List ℕ
      header = to_bytes 2 (size + 4)

      checksum : List ℕ
      checksum = to_bytes 4 c

      summed : List ℕ
      summed = write_at 2 checksum e.msg.buffer

      summed_full : length summed ≡ network_max_size
      summed_full = length-write_at 2 checksum e.msg.buffer ∙ full

  adler_checksum-lt : (size : ℕ) (bytes : List ℕ) → adler_checksum digest size bytes < u32_mod
  unfolding adler_checksum
  adler_checksum-lt size bytes = ground arith

  check_sum-Arrived :
      (size : ℕ) (cipher : List ℕ) (w : Output) (m : Message)
      → 0 < size
      → size + 6 ≤ network_max_size
      → Wire size cipher w
      → Arrived size w m
      → check_sum digest m ≡ some (true, record m { position = 6 })
  unfolding check_sum get skip
  check_sum-Arrived size cipher w m pos small v a =
      rw (a.position, a.total, count, body, sum) (ground arith)
    where
      count : (size + 6 + u32_mod + u32_mod - 2 - 4) % u32_mod ≡ size
      count = omega arith

      body : read_at 6 size m.buffer ≡ cipher
      body = part_of_take 6 size (size + 6) m.buffer w.msg.buffer (omega arith) a.same ∙ v.body

      sum : of_bytes (read_at 2 4 m.buffer) ≡ adler_checksum digest size cipher
      sum =
          ap of_bytes
            (part_of_take 2 4 (size + 6) m.buffer w.msg.buffer (omega arith) a.same ∙ v.sum)
          ∙ of_bytes-to_bytes 4 _ (adler_checksum-lt size cipher)

-- The plain text of a region of whole blocks that is read back encrypted, with what follows it.
decrypt_region :
    (k : Key) (b : ℕ) (plain xs : List ℕ)
    → length plain ≡ 8 * b
    → All IsByte plain
    → take (8 * b) xs ≡ encrypt_blocks b k plain
    → decrypt_blocks b k xs ≡ plain ++ drop (8 * b) xs
decrypt_region k b plain xs size bytes e =
    ap (decrypt_blocks b k) (sym (take-append-drop (8 * b) xs) ∙ ap (λ t. t ++ drop (8 * b) xs) e)
    ∙ decrypt_blocks-append b k (encrypt_blocks b k plain) (drop (8 * b) xs)
        (length-encrypt_blocks b k plain size)
    ∙ ap (λ t. t ++ drop (8 * b) xs) (decrypt_blocks-encrypt_blocks b k plain bytes)

drop-take_self : (i : ℕ) (xs ys : List ℕ) → i ≤ length xs → drop i (take i xs ++ ys) ≡ ys
drop-take_self i xs ys h =
    subst (λ j. drop j (take i xs ++ ys) ≡ ys) (length-take i xs h) (drop-append (take i xs) ys)

-- The received message after decryption.
abbrev decrypted : Key → ℕ → Message → List ℕ
decrypted k b m = take 6 m.buffer ++ decrypt_blocks b k (drop 6 m.buffer)

-- A region of the plain text is found at its place after decryption.
module _ (k : Key) (b : ℕ) (plain : List ℕ) (m : Message) (size : length plain ≡ 8 * b)
    (bytes : All IsByte plain) (full : length m.buffer ≡ network_max_size)
    (cipher : read_at 6 (8 * b) m.buffer ≡ encrypt_blocks b k plain) where
  drop-decrypted : drop 6 (decrypted k b m) ≡ plain ++ drop (8 * b) (drop 6 m.buffer)
  drop-decrypted =
      drop-take_self 6 m.buffer (decrypt_blocks b k (drop 6 m.buffer)) (omega (arith, full))
      ∙ decrypt_region k b plain (drop 6 m.buffer) size bytes cipher

  take-decrypted : take (8 * b) (drop 6 (decrypted k b m)) ≡ plain
  take-decrypted =
      ap (take (8 * b)) drop-decrypted
      ∙ subst (λ j. take j (plain ++ drop (8 * b) (drop 6 m.buffer)) ≡ plain) size
          (take-append plain (drop (8 * b) (drop 6 m.buffer)))

  read_at-decrypted :
      (i j n : ℕ) → j ≡ 6 + i → i + n ≤ 8 * b → read_at j n (decrypted k b m) ≡ read_at i n plain
  read_at-decrypted i j n e h =
      ap (take n) (drop-drop 6 i j (decrypted k b m) e)
      ∙ part_of_take i n (8 * b) (drop 6 (decrypted k b m)) plain h
          (take-decrypted ∙ sym (take_all plain (8 * b) size))

  xtea_decrypt-decrypted :
      (n : ℕ)
      → m.position ≡ 6
      → m.size ≡ 8 * b + 6
      → 0 < b
      → 8 * b + 6 ≤ network_max_size
      → read_at 0 2 plain ≡ to_bytes 2 n
      → n + 2 ≤ 8 * b
      → xtea_decrypt k m ≡ some (true, record { buffer = decrypted k b m; size = n; position = 8 })
  unfolding xtea_decrypt get
  xtea_decrypt-decrypted n at total pos small inner fits =
      rw (at, total, count, length_of) (ground (arith, even))
    where
      count : blocks_of (8 * b + 6 - 6) ≡ b
      count = omega arith

      even : (8 * b + 6 - 6) % 8 ≡ 0
      even = omega arith

      length_of : of_bytes (read_at 6 2 (decrypted k b m)) ≡ n
      length_of =
          ap of_bytes (read_at-decrypted 0 6 2 refl (omega arith) ∙ inner)
          ∙ of_bytes-to_bytes 2 n (omega arith)

-- The message that goes out, and its encrypted body.
abbrev pub sealed : (List ℕ → Digest) → Key → Output → Output
sealed digest k o = add_crypto_header digest true (xtea_encrypt k (write_message_length o))

abbrev pub body_of : Key → Output → ℕ → List ℕ
body_of k o n = read_at 6 (8 * blocks n) (xtea_encrypt k (write_message_length o)).msg.buffer

pub sealed-Wire :
    (digest : List ℕ → Digest) (k : Key) (o : Output) (n : ℕ)
    → IsReady o n
    → Wire digest (8 * blocks n) (body_of k o n) (sealed digest k o)
sealed-Wire digest k o n r =
    let e = xtea_encrypt-Encrypted o n r k in
    add_crypto_header-Wire digest (8 * blocks n) _ e.start e.size (omega (arith, r.room)) e.full

-- A packet that `onSendMessage` seals with encryption and checksum and that arrives unchanged behind
-- its two length bytes passes the checksum test of `parsePacket`, and `onRecvMessage` then hands on a
-- message with the payload's size, at its first byte, with the payload's bytes. The length bytes
-- count what follows them. The payload is any that leaves room for the padding, and the digest of
-- the checksum any function.
pub on_recv_message-on_send_message :
    (digest : List ℕ → Digest) (k : Key) (o : Output) (n : ℕ) (m : Message)
    → IsReady o n
    → let p : ProtocolConfig = record {
      key = k;
      raw_messages = false;
      encryption_enabled = true;
      checksum_enabled = true;
    } in
      let sent = on_send_message digest p o in
      Arrived (8 * blocks n) sent m
      → (m' : Message) × (check_sum digest m ≡ some (true, record m { position = 6 }))
        × (on_recv_message p (record m { position = 6 }) ≡ some m')
        × (m'.size ≡ n)
        × (m'.position ≡ 8)
        × (read_at 8 n m'.buffer ≡ read_at 8 n o.msg.buffer)
        × (of_bytes (read_at sent.output_start 2 sent.msg.buffer) + 2 ≡ sent.msg.size)
unfolding on_send_message on_recv_message
on_recv_message-on_send_message digest k o n m r a = (
  record { buffer = decrypted k b arrived; size = n; position = 8 },
  check_sum-Arrived digest (8 * b) _ _ m (omega arith) (omega (arith, r.room)) w a,
  rw (
      xtea_decrypt-decrypted k b plain arrived size bytes a.full cipher n refl a.total (omega arith)
        (omega (arith, r.room)) inner (omega arith)),
  refl,
  refl,
  read_at-decrypted k b plain arrived size bytes a.full cipher 2 8 n refl (omega arith)
      ∙ part_of_plain 2 8 n refl (omega arith)
      ∙ e.padded.body,
  rw w.start (
      omega (
        arith,
        w.total,
        ap of_bytes w.header,
        of_bytes-to_bytes 2 (8 * b + 4) (omega (arith, r.room)),
      )),
)
  where
    b : ℕ
    b = blocks n

    e : Encrypted k o n (xtea_encrypt k (write_message_length o))
    e = xtea_encrypt-Encrypted o n r k

    plain : List ℕ
    plain = read_at 6 (8 * b) e.plain.msg.buffer

    w : Wire digest (8 * b) (body_of k o n) (sealed digest k o)
    w = sealed-Wire digest k o n r

    arrived : Message
    arrived = record m { position = 6 }

    size : length plain ≡ 8 * b
    size =
        length-take (8 * b) (drop 6 e.plain.msg.buffer)
          (omega (arith, r.room, e.padded.full, length-drop 6 e.plain.msg.buffer))

    bytes : All IsByte plain
    bytes = take-All IsByte (8 * b) _ (drop-All IsByte 6 _ e.padded.bytes)

    cipher : read_at 6 (8 * b) m.buffer ≡ encrypt_blocks b k plain
    cipher = part_of_take 6 (8 * b) (8 * b + 6) m.buffer _ (omega arith) a.same ∙ w.body ∙ e.cipher

    part_of_plain :
        (i j c : ℕ) → j ≡ 6 + i → i + c ≤ 8 * b → read_at i c plain ≡ read_at j c e.plain.msg.buffer
    part_of_plain i j c at h =
        part_of_take i c (8 * b) plain (drop 6 e.plain.msg.buffer) h
          (take-take (8 * b) (8 * b) _ (omega arith))
        ∙ ap (take c) (sym (drop-drop 6 i j e.plain.msg.buffer at))

    inner : read_at 0 2 plain ≡ to_bytes 2 n
    inner = part_of_plain 0 6 2 refl (omega arith) ∙ e.padded.inner
