-- ===== src/Chat.antt =====
-- The private channels of src/chat.cpp, with `playerChannelInvite` and `playerChannelExclude` of
-- src/game.cpp. A player is the number of his character, of whom one at most is in the game and who is
-- not removed; the key of a user in a channel is that number too. What is sent to clients is left out.
pub mod Closed
pub mod Slots
pub mod Private
pub mod Creating
mod Tests
use model_lib.Prelude.{
  ℕ, zero, suc, Bool, true, false, ◌||◌, not, ◌==◌, if◌then◌else◌, Option, none, some, List, [],
  ◌∷◌, ◌++◌,
}
use model_lib.Prelude.Pointers.{contains, erase}

pub record Channel : Type 0 where
  pub owner : ℕ
  pub invites : List ℕ
  pub users : List ℕ

-- `m_privateChannels`
abbrev pub Channels : Type 0
Channels = ℕ → Option Channel

unfoldable pub put : ℕ → Option Channel → Channels → Channels
put i o s j = if j == i then o else s j

unfoldable pub is_invited : ℕ → Channel → Bool
is_invited p c = p == c.owner || contains p c.invites

unfoldable pub invite_player : ℕ → ℕ → Channel → Channel
invite_player p q c =
    if p == q || contains q c.invites then c else record c { invites = c.invites ++ q ∷ [] }

unfoldable pub remove_user : ℕ → Channel → Channel
remove_user p c = record c { users = erase p c.users }

unfoldable pub exclude_player : ℕ → ℕ → Channel → Channel
unfolding remove_user
exclude_player p q c =
    if p == q || not (contains q c.invites)
    then c
    else remove_user q (record c { invites = erase q c.invites })

unfoldable pub add_user : ℕ → Channel → Channel
add_user p c = if contains p c.users then c else record c { users = p ∷ c.users }

-- The first of n numbers that passes a test.
unfoldable pub first : (ℕ → Bool) → ℕ → ℕ → Option ℕ
first f i zero = none
first f i (suc n) = let rest = first f (suc i) n in if f i then some i else rest

unfoldable pub is_free : Channels → ℕ → Bool
is_free s i = elim (s i) [ none ↦ true | some c ↦ false ]

unfoldable pub is_owned : ℕ → Channels → ℕ → Bool
is_owned p s i = elim (s i) [ none ↦ false | some c ↦ c.owner == p ]

-- `getPrivateChannel`: the keys are 16-bit numbers, in their order.
unfoldable pub get_private_channel : ℕ → Channels → Option ℕ
unfolding first is_owned
get_private_channel p s = first (is_owned p s) 0 65536

-- `createChannel` for CHANNEL_PRIVATE
unfoldable pub create_at : ℕ → Option ℕ → Channels → Channels
unfolding put
create_at p none s = s
create_at p (some i) s = put i (some (record { owner = p; invites = []; users = [] })) s

unfoldable pub create_if : ℕ → Option ℕ → Channels → Channels
unfolding create_at first is_free
create_if p none s = create_at p (first (is_free s) 100 9900) s
create_if p (some i) s = s

unfoldable pub create_channel : ℕ → Bool → Channels → Channels
unfolding create_if get_private_channel
create_channel p premium s =
    let t = create_if p (get_private_channel p s) s in if premium then t else s

-- A change of a channel that is there.
unfoldable pub change : ℕ → (Channel → Option Channel) → Channels → Channels
unfolding put
change i f s = elim (s i) [ none ↦ s | some c ↦ put i (f c) s ]

-- `addUserToChannel`, for a private channel: `getChannel` finds it for those who are invited, where no
-- other channel has its number.
unfoldable pub add_user_to_channel : ℕ → ℕ → Channels → Channels
unfolding change add_user is_invited
add_user_to_channel p i s = change i (λ c. some (if is_invited p c then add_user p c else c)) s

-- `removeUserFromChannel`: the owner's channel is deleted.
unfoldable pub left : ℕ → Channel → Option Channel
unfolding remove_user
left p c = if c.owner == p then none else some (remove_user p c)

unfoldable pub remove_user_from_channel : ℕ → ℕ → Channels → Channels
unfolding change left is_invited
remove_user_from_channel p i s =
    change i
      (λ c. if is_invited p c then (if contains p c.users then left p c else some c) else some c) s

-- `deleteChannel`
unfoldable pub delete_channel : ℕ → Channels → Channels
unfolding put
delete_channel i s = put i none s

unfoldable pub change_own : Option ℕ → (Channel → Channel) → Channels → Channels
unfolding change
change_own none f s = s
change_own (some i) f s = change i (λ c. some (f c)) s

unfoldable pub player_channel_invite : ℕ → ℕ → Channels → Channels
unfolding change_own get_private_channel invite_player
player_channel_invite p q s = change_own (get_private_channel p s) (invite_player p q) s

unfoldable pub player_channel_exclude : ℕ → ℕ → Channels → Channels
unfolding change_own get_private_channel exclude_player
player_channel_exclude p q s = change_own (get_private_channel p s) (exclude_player p q) s

pub data Command : Type 0 where
  create_private : ℕ → Bool → Command
  join leave invite exclude : ℕ → ℕ → Command
  delete : ℕ → Command

unfoldable pub step : Command → Channels → Channels
unfolding create_channel add_user_to_channel remove_user_from_channel delete_channel
    player_channel_invite player_channel_exclude
step (create_private p premium) s = create_channel p premium s
step (join p i) s = add_user_to_channel p i s
step (leave p i) s = remove_user_from_channel p i s
step (invite p q) s = player_channel_invite p q s
step (exclude p q) s = player_channel_exclude p q s
step (delete i) s = delete_channel i s

unfoldable pub run : List Command → Channels → Channels
unfolding step
run [] s = s
run (c ∷ cs) s = run cs (step c s)
