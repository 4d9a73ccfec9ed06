-- ===== src/Chat/Private.antt =====
-- What holds of the private channels of src/chat.cpp.
use model_lib.Prelude.{
  ℕ, ◌<◌, ◌≡◌, refl, ap, sym, ◌∙◌, subst, Bool, ◌==◌, if◌then◌else◌, Option, none, some, arith, ◌⊎◌,
  Bool-cases, inl, inr,
}
use model_lib.Prelude.Pointers.{contains}
use model_lib.Chat.{
  Channel, Channels, put, is_invited, invite_player, remove_user, exclude_player, add_user,
  get_private_channel, change, add_user_to_channel, left, remove_user_from_channel, delete_channel,
  change_own, player_channel_invite, player_channel_exclude,
}
use model_lib.Chat.Closed.{
  IsClosed, add_user-IsClosed, remove_user-IsClosed, invite_player-IsClosed,
  exclude_player-IsClosed,
}

pub record IsPrivate (s : Channels) : Type 0 where
  pub range : (i : ℕ) (c : Channel) → s i ≡ some c → (99 < i) × (i < 10000)
  pub owners : (i j : ℕ) (c d : Channel) → s i ≡ some c → s j ≡ some d → c.owner ≡ d.owner → i ≡ j
  pub closed : (i : ℕ) (c : Channel) → s i ≡ some c → IsClosed c

change_lookup :
    (i : ℕ) (f : Channel → Option Channel) (s : Channels) (j : ℕ) (d : Channel)
    → change i f s j ≡ some d
    → (c : Channel) × (s j ≡ some c) × ((d ≡ c) ⊎ (f c ≡ some d))
unfolding change put
change_lookup i f s j d = go (s i) refl
  where
    go :
        (o : Option Channel)
        → s i ≡ o
        → (elim o as (λ x. Channels) [ none ↦ s | some c ↦ put i (f c) s ]) j ≡ some d
        → (c : Channel) × (s j ≡ some c) × ((d ≡ c) ⊎ (f c ≡ some d))
    go none e h = (d, h, inl refl)
    go (some c) e h = elim (Bool-cases (j == i)) [
      | inl q ↦ (c, ap s (ground (arith, q)) ∙ e, inr (ground (arith, q, h)))
      | inr q ↦ (d, ground (arith, q, h), inl refl)
    ]

-- A change that leaves the owner and closes nobody in.
abbrev Keeps : (Channel → Option Channel) → Type 0
Keeps f = (c d : Channel) → f c ≡ some d → (d.owner ≡ c.owner) × (IsClosed c → IsClosed d)

change_kept :
    (i : ℕ) (f : Channel → Option Channel) (s : Channels)
    → Keeps f
    → (j : ℕ) (d : Channel) → change i f s j ≡ some d
    → (c : Channel) × (s j ≡ some c) × (d.owner ≡ c.owner) × (IsClosed c → IsClosed d)
change_kept i f s keeps j d h =
    let (c, e, cases) = change_lookup i f s j d h in let (o, k) = kept c cases in (c, e, o, k)
  where
    kept :
        (c : Channel) → (d ≡ c) ⊎ (f c ≡ some d) → (d.owner ≡ c.owner) × (IsClosed c → IsClosed d)
    kept c (inl q) = (ap (λ x. x.owner) q, subst (λ x. IsClosed x) (sym q))
    kept c (inr q) = keeps c d q

change-IsPrivate :
    (i : ℕ) (f : Channel → Option Channel) (s : Channels)
    → Keeps f
    → IsPrivate s
    → IsPrivate (change i f s)
change-IsPrivate i f s keeps h = record {
  range = λ j d e. let (c, at, o, k) = change_kept i f s keeps j d e in h.range j c at;
  owners = λ j j' d d' e e' same.
      let (c, at, o, k) = change_kept i f s keeps j d e in
      let (c', at', o', k') = change_kept i f s keeps j' d' e' in
      h.owners j j' c c' at at' (sym o ∙ same ∙ o');
  closed = λ j d e. let (c, at, o, k) = change_kept i f s keeps j d e in k (h.closed j c at);
}

some-Keeps :
    (g : Channel → Channel)
    → ((c : Channel) → (g c).owner ≡ c.owner)
    → ((c : Channel) → IsClosed c → IsClosed (g c))
    → Keeps (λ c. some (g c))
some-Keeps g same closed c d e =
    let eq : g c ≡ d = cc e in
    (ap (λ x. x.owner) (sym eq) ∙ same c, λ h. subst (λ x. IsClosed x) eq (closed c h))

pub add_user_to_channel-IsPrivate :
    (p i : ℕ) (s : Channels) → IsPrivate s → IsPrivate (add_user_to_channel p i s)
unfolding add_user_to_channel
add_user_to_channel-IsPrivate p i s = change-IsPrivate i _ s (
    some-Keeps (λ c. if is_invited p c then add_user p c else c)
      (λ c. unfold add_user in ground arith)
      (λ c h. elim (Bool-cases (is_invited p c)) [
        | inl e ↦ rw e (add_user-IsClosed p c h e)
        | inr e ↦ rw e h
      ]))

left-Keeps : (p : ℕ) → Keeps (left p)
unfolding left
left-Keeps p c d e = elim (Bool-cases (c.owner == p)) [
  | inl q ↦ ground (arith, e, q)
  | inr q ↦
      let eq : remove_user p c ≡ d = ground (arith, e, q) in
      (
        ap (λ x. x.owner) (sym eq) ∙ unfold remove_user in refl,
        λ h. subst (λ x. IsClosed x) eq (remove_user-IsClosed p c h),
      )
]

if-Keeps :
    (b : Channel → Bool) (f g : Channel → Option Channel)
    → Keeps f
    → Keeps g
    → Keeps (λ c. if b c then f c else g c)
if-Keeps b f g h k c d e = elim (Bool-cases (b c)) [
  | inl q ↦ h c d (ground (arith, q, e))
  | inr q ↦ k c d (ground (arith, q, e))
]

pub remove_user_from_channel-IsPrivate :
    (p i : ℕ) (s : Channels) → IsPrivate s → IsPrivate (remove_user_from_channel p i s)
unfolding remove_user_from_channel
remove_user_from_channel-IsPrivate p i s =
    let same = some-Keeps (λ c. c) (λ c. refl) (λ c h. h) in
    change-IsPrivate i _ s (
      if-Keeps (is_invited p) _ _ (if-Keeps (λ c. contains p c.users) _ _ (left-Keeps p) same) same)

change_own-IsPrivate :
    (o : Option ℕ) (g : Channel → Channel) (s : Channels)
    → ((c : Channel) → (g c).owner ≡ c.owner)
    → ((c : Channel) → IsClosed c → IsClosed (g c))
    → IsPrivate s
    → IsPrivate (change_own o g s)
unfolding change_own
change_own-IsPrivate none g s same closed h = h
change_own-IsPrivate (some i) g s same closed h =
    change-IsPrivate i (λ c. some (g c)) s (some-Keeps g same closed) h

pub invite-IsPrivate :
    (p q : ℕ) (s : Channels) → IsPrivate s → IsPrivate (player_channel_invite p q s)
unfolding player_channel_invite
invite-IsPrivate p q s =
    change_own-IsPrivate (get_private_channel p s) (invite_player p q) s
      (λ c. unfold invite_player in ground arith) (invite_player-IsClosed p q)

pub exclude-IsPrivate :
    (p q : ℕ) (s : Channels) → IsPrivate s → IsPrivate (player_channel_exclude p q s)
unfolding player_channel_exclude
exclude-IsPrivate p q s =
    change_own-IsPrivate (get_private_channel p s) (exclude_player p q) s
      (λ c. unfold exclude_player remove_user in ground arith) (exclude_player-IsClosed p q)

delete_lookup :
    (i : ℕ) (s : Channels) (j : ℕ) (d : Channel) → delete_channel i s j ≡ some d → s j ≡ some d
unfolding delete_channel put
delete_lookup i s j d e = ground (arith, e)

pub delete-IsPrivate : (i : ℕ) (s : Channels) → IsPrivate s → IsPrivate (delete_channel i s)
delete-IsPrivate i s h = record {
  range = λ j d e. h.range j d (delete_lookup i s j d e);
  owners =
      λ j j' d d' e e'. h.owners j j' d d' (delete_lookup i s j d e) (delete_lookup i s j' d' e');
  closed = λ j d e. h.closed j d (delete_lookup i s j d e);
}
