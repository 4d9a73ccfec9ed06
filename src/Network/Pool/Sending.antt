-- ===== src/Network/Pool/Sending.antt =====
-- What sending a message of the pool of src/outputmessage.cpp leaves alone.
use model_lib.Prelude.{
  ℕ, ◌≡◌, refl, Bool, true, false, ◌&&◌, not, ltb, ◌==◌, if◌then◌else◌, Option, none, some, arith,
  Bool-cases, inl, inr,
}
use model_lib.Prelude.Pointers.{erase, count, count-erase, count-append}
use model_lib.Network.Pool.{Pool, on_message, on_connection, on_protocol, release}
use model_lib.Network.Pool.Output.{
  seal_by, seal, internal_send, auto_send_later, connection_send, send_to,
}
use model_lib.Network.Pool.Once.{refs, SameBut, SameBut-refl, SameBut-trans}

-- What the operations on a message with a pointer change.
module _ (m : ℕ) (s : Pool) where
  pub seal-SameBut : SameBut m s (seal m s)
  unfolding seal seal_by refs on_message on_protocol
  seal-SameBut = record {
    pool = ground arith;
    tasks = ground arith;
    lost = ground arith;
    dispatching = ground arith;
    allocated = ground arith;
    others = λ x e. ground (arith, e, count-erase x m s.outside);
  }

  pub seal_queues : ((seal m s).auto_send ≡ s.auto_send) × ((seal m s).add_queue ≡ s.add_queue)
  unfolding seal seal_by on_message on_protocol
  seal_queues = (ground arith, ground arith)

  internal_send-SameBut : (c : ℕ) → SameBut m s (internal_send c m s)
  unfolding internal_send on_connection refs count
  internal_send-SameBut c = record {
    pool = refl;
    tasks = refl;
    lost = refl;
    dispatching = refl;
    allocated = refl;
    others = λ x e. ground (arith, e);
  }

  auto_send_later-SameBut : SameBut m s (auto_send_later m s)
  unfolding auto_send_later refs
  auto_send_later-SameBut = record {
    pool = refl;
    tasks = refl;
    lost = refl;
    dispatching = refl;
    allocated = refl;
    others = λ x e. ground (arith, e, count-append x m s.add_queue);
  }

pub if-closed :
    {A : Type 0} (P : A → Type 0) (b : Bool) (t u : A) → P t → P u → P (if b then t else u)
if-closed P true t u h k = h
if-closed P false t u h k = k

-- The queue of messages that are sent by themselves is left alone too.
abbrev pub IsSending : ℕ → Pool → Pool → Type 0
IsSending m s t = SameBut m s t × (t.auto_send ≡ s.auto_send)

-- What holds of every outcome of sending a message holds in the end.
module _ (P : Pool → Type 0) (slow : Bool) (m : ℕ) (s : Pool) where
  pub connection_send_outcome :
      (c : ℕ)
      → P s
      → P (internal_send c m (seal m s))
      → P (on_connection c (λ r. record r { open_state = false }) s)
      → P (auto_send_later m s)
      → P (connection_send slow c m s).1
  unfolding connection_send
  connection_send_outcome c refused written closed later =
      elim (Bool-cases (not (s.connections c).open_state)) [
        | inl e ↦ rw (e, connection_send) refused
        | inr e ↦ elim (Bool-cases ((s.connections c).pending_write == 0)) [
          | inl f ↦ rw (e, f, connection_send) written
          | inr f ↦ elim (Bool-cases (ltb 100 (s.connections c).pending_write && slow)) [
            | inl g ↦ rw (e, f, g, connection_send) closed
            | inr g ↦ rw (e, f, g, connection_send) later
          ]
        ]
      ]

  connection_send-closed :
      (c : ℕ)
      → P (seal m s)
      → P (internal_send c m (seal m s))
      → P (on_connection c (λ r. record r { open_state = false }) s)
      → P (auto_send_later m s)
      → P (
          if (connection_send slow c m s).0
          then (connection_send slow c m s).1
          else seal m (connection_send slow c m s).1)
  unfolding connection_send
  connection_send-closed c sealed written closed later =
      elim (Bool-cases (not (s.connections c).open_state)) [
        | inl e ↦ rw (e, connection_send) sealed
        | inr e ↦ elim (Bool-cases ((s.connections c).pending_write == 0)) [
          | inl f ↦ rw (e, f, connection_send) written
          | inr f ↦ elim (Bool-cases (ltb 100 (s.connections c).pending_write && slow)) [
            | inl g ↦ rw (e, f, g, connection_send) closed
            | inr g ↦ rw (e, f, g, connection_send) later
          ]
        ]
      ]

  pub send_to-closed :
      (o : Option ℕ)
      → P s
      → P (seal m s)
      → ((c : ℕ) → P (internal_send c m (seal m s)))
      → ((c : ℕ) → P (on_connection c (λ r. record r { open_state = false }) s))
      → P (auto_send_later m s)
      → P (send_to slow o m s)
  unfolding send_to
  send_to-closed none kept sealed written closed later = kept
  send_to-closed (some c) kept sealed written closed later =
      connection_send-closed c sealed (written c) (closed c) later

module _ (slow : Bool) (m : ℕ) (s : Pool) where
  open_state-IsSending :
      (c : ℕ) → IsSending m s (on_connection c (λ r. record r { open_state = false }) s)
  unfolding on_connection refs
  open_state-IsSending c = (
    record {
      pool = refl;
      tasks = refl;
      lost = refl;
      dispatching = refl;
      allocated = refl;
      others = λ x e. refl;
    },
    refl,
  )

  write-IsSending : (c : ℕ) → IsSending m s (internal_send c m (seal m s))
  write-IsSending c = (
    SameBut-trans m s (seal m s) _ (seal-SameBut m s) (internal_send-SameBut m (seal m s) c),
    unfold internal_send on_connection in (seal_queues m s).0,
  )

  pub connection_send-IsSending : (c : ℕ) → IsSending m s (connection_send slow c m s).1
  connection_send-IsSending c =
      connection_send_outcome (IsSending m s) slow m s c (SameBut-refl m s, refl)
        (write-IsSending c) (open_state-IsSending c)
        (auto_send_later-SameBut m s, unfold auto_send_later in refl)

  pub send_to-IsSending : (o : Option ℕ) → IsSending m s (send_to slow o m s)
  send_to-IsSending o =
      send_to-closed (IsSending m s) slow m s o (SameBut-refl m s, refl)
        (seal-SameBut m s, (seal_queues m s).0) write-IsSending open_state-IsSending
        (auto_send_later-SameBut m s, unfold auto_send_later in refl)

pub release_queues :
    (m : ℕ) (t : Pool)
    → ((release m t).add_queue ≡ t.add_queue) × ((release m t).auto_send ≡ t.auto_send)
unfolding release
release_queues m t = (ground arith, ground arith)

-- Dropping a pointer to a message from a queue.
module _ (m : ℕ) (s : Pool) where
  pub drop_queue-SameBut : SameBut m s (record s { add_queue = erase m s.add_queue })
  unfolding refs
  drop_queue-SameBut = record {
    pool = refl;
    tasks = refl;
    lost = refl;
    dispatching = refl;
    allocated = refl;
    others = λ x e. ground (arith, e, count-erase x m s.add_queue);
  }

  pub drop_auto-SameBut : SameBut m s (record s { auto_send = erase m s.auto_send })
  unfolding refs
  drop_auto-SameBut = record {
    pool = refl;
    tasks = refl;
    lost = refl;
    dispatching = refl;
    allocated = refl;
    others = λ x e. ground (arith, e, count-erase x m s.auto_send);
  }

  pub drop_outside-SameBut : SameBut m s (record s { outside = erase m s.outside })
  unfolding refs
  drop_outside-SameBut = record {
    pool = refl;
    tasks = refl;
    lost = refl;
    dispatching = refl;
    allocated = refl;
    others = λ x e. ground (arith, e, count-erase x m s.outside);
  }
