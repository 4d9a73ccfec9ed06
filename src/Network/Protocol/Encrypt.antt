-- ===== src/Network/Protocol/Encrypt.antt =====
-- What `writeMessageLength` and `XTEA_encrypt` make of an output message (src/protocol.cpp).
use model_lib.Prelude.{
  ℕ, ◌+◌, ◌-◌, ◌*◌, ◌/◌, ◌%◌, ◌≤◌, ◌<◌, ◌≡◌, refl, ap, sym, ◌∙◌, subst, ◌==◌, Bool-cases, inl, inr,
  List, ◌++◌, length, length-append, length-take, length-drop, replicate, take, drop, take-append,
  drop-append, take-append-drop, arith,
}
use model_lib.Prelude.All.{All, replicate-All}
use model_lib.Network.Buffer.{
  write_at, read_at, to_bytes, IsByte, length-write_at, length-to_bytes, read_at-write_at,
  read_at-write_at_before, drop-write_at, to_bytes-IsByte, write_at-IsByte,
}
use model_lib.Network.Message.{put_padding, network_max_size}
use model_lib.Network.Message.Write.{has_space_of_lt}
use model_lib.Network.Xtea.{Key, encrypt_blocks}
use model_lib.Network.Xtea.Blocks.{encrypt_blocks-append, length-encrypt_blocks}
use model_lib.Network.Protocol.{Output, add_header, write_message_length, xtea_encrypt, blocks_of}

-- A message with a payload of `n` bytes behind the eight that are kept for the headers, and room for
-- the padding.
pub record IsReady (o : Output) (n : ℕ) : Type 0 where
  pub start : o.output_start ≡ 8
  pub position : o.msg.position ≡ 8 + n
  pub size : o.msg.size ≡ n
  pub full : length (o.msg.buffer) ≡ network_max_size
  pub bytes : All IsByte (o.msg.buffer)
  pub room : n + 15 < network_max_size - 16

-- The blocks that the length and the payload fill.
abbrev pub blocks : ℕ → ℕ
blocks n = (n + 9) / 8

-- What stands in the message before it is encrypted.
pub record Padded (o : Output) (n : ℕ) (p : Output) : Type 0 where
  pub start : p.output_start ≡ 6
  pub size : p.msg.size ≡ 8 * blocks n
  pub full : length (p.msg.buffer) ≡ network_max_size
  pub bytes : All IsByte (p.msg.buffer)
  pub inner : read_at 6 2 p.msg.buffer ≡ to_bytes 2 n
  pub body : read_at 8 n p.msg.buffer ≡ read_at 8 n o.msg.buffer

-- The encrypted message: `plain` is the padded one.
pub record Encrypted (k : Key) (o : Output) (n : ℕ) (e : Output) : Type 0 where
  pub plain : Output
  pub padded : Padded o n plain
  pub start : e.output_start ≡ 6
  pub size : e.msg.size ≡ 8 * blocks n
  pub full : length (e.msg.buffer) ≡ network_max_size
  pub cipher :
      read_at 6 (8 * blocks n) e.msg.buffer
      ≡ encrypt_blocks (blocks n) k (read_at 6 (8 * blocks n) plain.msg.buffer)

drop-take_self : (i : ℕ) (xs ys : List ℕ) → i ≤ length xs → drop i (take i xs ++ ys) ≡ ys
drop-take_self i xs ys h =
    subst (λ k. drop k (take i xs ++ ys) ≡ ys) (length-take i xs h) (drop-append (take i xs) ys)

take-encrypt_blocks :
    (b : ℕ) (k : Key) (xs : List ℕ)
    → 8 * b ≤ length xs
    → take (8 * b) (encrypt_blocks b k xs) ≡ encrypt_blocks b k (take (8 * b) xs)
take-encrypt_blocks b k xs h =
    ap (λ t. take (8 * b) (encrypt_blocks b k t)) (sym (take-append-drop (8 * b) xs))
    ∙ ap (take (8 * b)) (encrypt_blocks-append b k _ _ size)
    ∙ subst (λ m. take m (code ++ rest) ≡ code) (length-encrypt_blocks b k _ size)
        (take-append code rest)
  where
    size : length (take (8 * b) xs) ≡ 8 * b
    size = length-take (8 * b) xs h

    code : List ℕ
    code = encrypt_blocks b k (take (8 * b) xs)

    rest : List ℕ
    rest = drop (8 * b) xs

length-encrypt_blocks_long :
    (b : ℕ) (k : Key) (xs : List ℕ) → 8 * b ≤ length xs → length (encrypt_blocks b k xs) ≡ length xs
length-encrypt_blocks_long b k xs h =
    ap (λ t. length (encrypt_blocks b k t)) (sym (take-append-drop (8 * b) xs))
    ∙ ap length (encrypt_blocks-append b k _ _ (length-take (8 * b) xs h))
    ∙ length-append _ (drop (8 * b) xs)
    ∙ omega (arith, length-encrypt_blocks b k _ (length-take (8 * b) xs h), length-drop (8 * b) xs)

-- Only the blocks behind byte `i` are encrypted, and they are read back encrypted.
region-encrypt_blocks :
    (i b : ℕ) (k : Key) (xs : List ℕ)
    → i + 8 * b ≤ length xs
    → read_at i (8 * b) (take i xs ++ encrypt_blocks b k (drop i xs))
      ≡ encrypt_blocks b k (read_at i (8 * b) xs)
region-encrypt_blocks i b k xs h =
    ap (take (8 * b)) (drop-take_self i xs (encrypt_blocks b k (drop i xs)) (omega arith))
    ∙ take-encrypt_blocks b k (drop i xs) (omega (arith, length-drop i xs))

module _ (o : Output) (n : ℕ) (r : IsReady o n) where
  headed : Output
  headed = record {
    msg = record (o.msg) { buffer = write_at 6 (to_bytes 2 n) o.msg.buffer; size = n + 2 };
    output_start = 6;
  }

  write_message_length-headed : write_message_length o ≡ headed
  unfolding write_message_length add_header headed
  write_message_length-headed = ground arith

  headed-size : headed.msg.size ≡ n + 2
  unfolding headed
  headed-size = refl

  headed-inner : read_at 6 2 headed.msg.buffer ≡ to_bytes 2 n
  unfolding headed
  headed-inner =
      read_at-write_at 2 6 (to_bytes 2 n) o.msg.buffer (sym (length-to_bytes 2 n))
        (omega (arith, r.full))

  headed-body : read_at 8 n headed.msg.buffer ≡ read_at 8 n o.msg.buffer
  unfolding headed
  headed-body =
      ap (take n)
        (drop-write_at 8 6 (to_bytes 2 n) o.msg.buffer (omega (arith, length-to_bytes 2 n)))

  headed-bytes : All IsByte headed.msg.buffer
  unfolding headed
  headed-bytes = write_at-IsByte 6 (to_bytes 2 n) o.msg.buffer (to_bytes-IsByte 2 n) r.bytes

  headed-full : length headed.msg.buffer ≡ network_max_size
  unfolding headed
  headed-full = length-write_at 6 (to_bytes 2 n) o.msg.buffer ∙ r.full

  -- The message with `amount` bytes of padding.
  with_padding : ℕ → Output
  with_padding amount = record headed {
    msg = record headed.msg {
      buffer = write_at (8 + n) (replicate amount 0x33) headed.msg.buffer;
      size = n + 2 + amount;
    };
  }

  with_padding-Padded :
      (amount : ℕ) → n + 2 + amount ≡ 8 * blocks n → Padded o n (with_padding amount)
  unfolding with_padding headed
  with_padding-Padded amount e = record {
    start = refl;
    size = e;
    full = length-write_at (8 + n) (replicate amount 0x33) _ ∙ headed-full;
    bytes =
        write_at-IsByte (8 + n) (replicate amount 0x33) _
          (replicate-All IsByte amount 0x33 (omega arith)) headed-bytes;
    inner =
        read_at-write_at_before 6 2 (8 + n) (replicate amount 0x33) _ (omega arith) ∙ headed-inner;
    body =
        read_at-write_at_before 8 n (8 + n) (replicate amount 0x33) _ (omega arith) ∙ headed-body;
  }

  headed-Padded : n + 2 ≡ 8 * blocks n → Padded o n headed
  headed-Padded e = record {
    start = unfold headed in refl;
    size = unfold headed in e;
    full = headed-full;
    bytes = headed-bytes;
    inner = headed-inner;
    body = headed-body;
  }

  put_padding-with_padding :
      (amount : ℕ) → amount < 8 → put_padding amount headed.msg ≡ (with_padding amount).msg
  unfolding put_padding with_padding headed
  put_padding-with_padding amount h =
      rw (has_space_of_lt headed.msg amount (unfold headed in omega (arith, r.position, r.room)))
        (ground (arith, r.position, r.room))

  -- What `XTEA_encrypt` makes of the padded message `p`.
  ciphered : Key → Output → Output
  ciphered k p = record p {
    msg = record (p.msg) {
      buffer =
          take p.output_start p.msg.buffer
          ++ encrypt_blocks (blocks n) k (drop p.output_start p.msg.buffer);
    };
  }

  xtea_encrypt-ciphered :
      (k : Key)
      → (p : Output) × Padded o n p × (xtea_encrypt k (write_message_length o) ≡ ciphered k p)
  unfolding xtea_encrypt ciphered
  xtea_encrypt-ciphered k = elim (Bool-cases ((n + 2) % 8 == 0)) [
    | inl e ↦ (
      headed,
      headed-Padded (ground (arith, e)),
      rw write_message_length-headed (unfold headed in rw e (ground (arith, e))),
    )
    | inr e ↦ (
      with_padding amount,
      with_padding-Padded amount (ground (arith, e)),
      rw
          (
            write_message_length-headed,
            headed-size,
            e,
            put_padding-with_padding amount (ground (arith, e)),
          )
          (unfold with_padding in rw (even (ground (arith, e)))),
    )
  ]
    where
      amount : ℕ
      amount = 8 - (n + 2) % 8

      even : n + 2 + amount ≡ 8 * blocks n → blocks_of (n + 2 + amount) ≡ blocks n
      even h = omega arith

  ciphered-Encrypted : (k : Key) (p : Output) → Padded o n p → Encrypted k o n (ciphered k p)
  unfolding ciphered
  ciphered-Encrypted k p w = record {
    plain = p;
    padded = w;
    start = w.start;
    size = w.size;
    full =
        length-append (take p.output_start p.msg.buffer) _
        ∙ omega (
          arith,
          w.start,
          w.full,
          r.room,
          length-take p.output_start p.msg.buffer (omega (arith, w.start, w.full)),
          length-drop p.output_start p.msg.buffer,
          length-encrypt_blocks_long (blocks n) k (drop p.output_start p.msg.buffer)
              (omega (arith, w.start, w.full, r.room, length-drop p.output_start p.msg.buffer)),
        );
    cipher =
        rw w.start
          (region-encrypt_blocks 6 (blocks n) k p.msg.buffer (omega (arith, w.full, r.room)));
  }

  -- Encryption of a ready message goes over a padded one, block by block.
  pub xtea_encrypt-Encrypted : (k : Key) → Encrypted k o n (xtea_encrypt k (write_message_length o))
  xtea_encrypt-Encrypted k =
      let (p, w, e) = xtea_encrypt-ciphered k in rw e (ciphered-Encrypted k p w)
