-- ===== src/Chat/Closed.antt =====
-- Who is in a private channel of src/chat.cpp.
use model_lib.Prelude.{ℕ, ◌≤◌, ◌≡◌, true, [], ◌∷◌, ◌++◌, arith}
use model_lib.Prelude.Pointers.{contains, erase, count, contains-count, count-erase, count-append}
use model_lib.Chat.{Channel, is_invited, invite_player, remove_user, exclude_player, add_user}

-- Every user of a channel is invited, and nobody is a user twice or invited twice.
pub record IsClosed (c : Channel) : Type 0 where
  pub invited : (u : ℕ) → contains u c.users ≡ true → is_invited u c ≡ true
  pub user_once : (u : ℕ) → count u c.users ≤ 1
  pub invite_once : (u : ℕ) → count u c.invites ≤ 1

module _ (p : ℕ) (c : Channel) (h : IsClosed c) where
  pub add_user-IsClosed : is_invited p c ≡ true → IsClosed (add_user p c)
  unfolding add_user is_invited contains count
  add_user-IsClosed e = record {
    invited = λ u k. ground (arith, e, k, h.invited u);
    user_once = λ u. ground (arith, h.user_once u, contains-count p c.users);
    invite_once = λ u. ground (arith, h.invite_once u);
  }

  pub remove_user-IsClosed : IsClosed (remove_user p c)
  unfolding remove_user is_invited
  remove_user-IsClosed = record {
    invited = λ u k. h.invited u (
        ground (
          arith,
          k,
          contains-count u c.users,
          contains-count u (erase p c.users),
          count-erase u p c.users,
        ));
    user_once = λ u. ground (arith, h.user_once u, count-erase u p c.users);
    invite_once = h.invite_once;
  }

module _ (p q : ℕ) (c : Channel) (h : IsClosed c) where
  pub invite_player-IsClosed : IsClosed (invite_player p q c)
  unfolding invite_player is_invited
  invite_player-IsClosed = record {
    invited = λ u k. ground (
      arith,
      k,
      h.invited u,
      contains-count u c.invites,
      contains-count u (c.invites ++ q ∷ []),
      count-append u q c.invites,
    );
    user_once = λ u. ground (arith, h.user_once u);
    invite_once = λ u.
        ground (arith, h.invite_once u, contains-count q c.invites, count-append u q c.invites);
  }

  pub exclude_player-IsClosed : IsClosed (exclude_player p q c)
  unfolding exclude_player remove_user is_invited
  exclude_player-IsClosed = record {
    invited = λ u k. ground (
      arith,
      k,
      h.invited u,
      h.user_once u,
      contains-count u c.users,
      contains-count u (erase q c.users),
      count-erase u q c.users,
      contains-count u c.invites,
      contains-count u (erase q c.invites),
      count-erase u q c.invites,
    );
    user_once = λ u. ground (arith, h.user_once u, count-erase u q c.users);
    invite_once = λ u. ground (arith, h.invite_once u, count-erase u q c.invites);
  }
