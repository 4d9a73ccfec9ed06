-- ===== src/Chat/Creating.antt =====
-- `createChannel` of src/chat.cpp for private channels, and what any sequence of calls keeps.
use model_lib.Prelude.{
  ℕ, ◌<◌, ◌≡◌, refl, ap, sym, ◌∙◌, subst, Bool, true, false, ◌==◌, if◌then◌else◌, Option, none,
  some, List, [], ◌∷◌, arith, ◌⊎◌, Bool-cases, inl, inr,
}
use model_lib.Prelude.Pointers.{contains, count}
use model_lib.Chat.{
  Channel, Channels, put, first, is_free, get_private_channel, create_at, create_if, create_channel,
  Command, create_private, join, leave, invite, exclude, delete, step, run,
}
use model_lib.Chat.Slots.{first-some, get_private_channel-none}
use model_lib.Chat.Closed.{IsClosed}
use model_lib.Chat.Private.{
  IsPrivate, add_user_to_channel-IsPrivate, remove_user_from_channel-IsPrivate, invite-IsPrivate,
  exclude-IsPrivate, delete-IsPrivate,
}

create_at_lookup :
    (p i : ℕ) (s : Channels) (j : ℕ) (d : Channel)
    → create_at p (some i) s j ≡ some d
    → ((j ≡ i) × (d ≡ record { owner = p; invites = []; users = [] }))
      ⊎ ((j == i ≡ false) × (s j ≡ some d))
unfolding create_at put
create_at_lookup p i s j d e = elim (Bool-cases (j == i)) [
  | inl q ↦
      let new : some (record { owner = p; invites = []; users = [] }) ≡ some d =
        ground (arith, e, q) in
      inl (ground (arith, q), sym (cc new))
  | inr q ↦ inr (q, ground (arith, e, q))
]

new_channel-IsClosed : (p : ℕ) → IsClosed (record { owner = p; invites = []; users = [] })
unfolding contains count
new_channel-IsClosed p = record {
  invited = λ u e. ground (arith, e);
  user_once = λ u. omega arith;
  invite_once = λ u. omega arith;
}

-- A new channel: its number is free, and its owner has no other.
create_at-IsPrivate :
    (p i : ℕ) (s : Channels)
    → get_private_channel p s ≡ none
    → 99 < i
    → i < 10000
    → IsPrivate s
    → IsPrivate (create_at p (some i) s)
create_at-IsPrivate p i s unowned low high h = record {
  range = λ j d e. elim (created j d e) [
    | inl (q, new) ↦ (ground (arith, q, low), ground (arith, q, high))
    | inr (q, old) ↦ h.range j d old
  ];
  owners = λ j j' d d' e e' same. elim (created j d e) [
    | inl (q, new) ↦ elim (created j' d' e') [
      | inl (q', new') ↦ q ∙ sym q'
      | inr (q', old') ↦
          let other = get_private_channel-none p s j' d' unowned (bounded j' d' old') old' in
          ground (arith, other, same, ap (λ x. x.owner) new)
    ]
    | inr (q, old) ↦ elim (created j' d' e') [
      | inl (q', new') ↦
          let other = get_private_channel-none p s j d unowned (bounded j d old) old in
          ground (arith, other, same, ap (λ x. x.owner) new')
      | inr (q', old') ↦ h.owners j j' d d' old old' same
    ]
  ];
  closed = λ j d e. elim (created j d e) [
    | inl (q, new) ↦ subst (λ x. IsClosed x) (sym new) (new_channel-IsClosed p)
    | inr (q, old) ↦ h.closed j d old
  ];
}
  where
    created :
        (j : ℕ) (d : Channel)
        → create_at p (some i) s j ≡ some d
        → ((j ≡ i) × (d ≡ record { owner = p; invites = []; users = [] }))
          ⊎ ((j == i ≡ false) × (s j ≡ some d))
    created j d e = create_at_lookup p i s j d e

    bounded : (j : ℕ) (d : Channel) → s j ≡ some d → j < 65536
    bounded j d e = let (a, b) = h.range j d e in omega arith

create_channel-IsPrivate :
    (p : ℕ) (premium : Bool) (s : Channels) → IsPrivate s → IsPrivate (create_channel p premium s)
unfolding create_channel
create_channel-IsPrivate p premium s h = chosen premium
  where
    at :
        (o : Option ℕ)
        → get_private_channel p s ≡ none
        → first (is_free s) 100 9900 ≡ o
        → IsPrivate (create_at p o s)
    at none unowned e = unfold create_at in h
    at (some i) unowned e =
        let (free, low, high) = first-some (is_free s) 100 9900 i e in
        create_at-IsPrivate p i s unowned (omega arith) (omega arith) h

    owner : (o : Option ℕ) → get_private_channel p s ≡ o → IsPrivate (create_if p o s)
    owner none e = unfold create_if in at (first (is_free s) 100 9900) e refl
    owner (some i) e = unfold create_if in h

    chosen : (b : Bool) → IsPrivate (if b then create_if p (get_private_channel p s) s else s)
    chosen true = owner (get_private_channel p s) refl
    chosen false = h

step-IsPrivate : (c : Command) (s : Channels) → IsPrivate s → IsPrivate (step c s)
unfolding step
step-IsPrivate (create_private p premium) s = create_channel-IsPrivate p premium s
step-IsPrivate (join p i) s = add_user_to_channel-IsPrivate p i s
step-IsPrivate (leave p i) s = remove_user_from_channel-IsPrivate p i s
step-IsPrivate (invite p q) s = invite-IsPrivate p q s
step-IsPrivate (exclude p q) s = exclude-IsPrivate p q s
step-IsPrivate (delete i) s = delete-IsPrivate i s

run-IsPrivate : (cs : List Command) (s : Channels) → IsPrivate s → IsPrivate (run cs s)
unfolding run
run-IsPrivate [] s h = h
run-IsPrivate (c ∷ cs) s h = run-IsPrivate cs (step c s) (step-IsPrivate c s h)

-- Whatever is called from when there are no private channels: their numbers are from 100 to 9999, no
-- player owns two, nobody is a user of a channel who is neither its owner nor invited, and nobody is a
-- user or invited twice.
pub run_new-IsPrivate : (cs : List Command) → IsPrivate (run cs (λ i. none))
run_new-IsPrivate cs =
    run-IsPrivate cs (λ i. none)
      (record {
        range = λ i c e. ground (arith, e);
        owners = λ i j c d e e' same. ground (arith, e);
        closed = λ i c e. absurd_channel c e;
      })
  where
    absurd_channel : (c : Channel) → none ≡ some c → IsClosed c
    absurd_channel c e = ground (arith, e)
