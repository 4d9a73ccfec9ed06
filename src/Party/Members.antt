-- ===== src/Party/Members.antt =====
-- The operations of src/party.cpp keep a party and its players' pointers to it in step.
use model_lib.Prelude.{
  ℕ, ◌+◌, ◌-◌, ◌≤◌, ◌≡◌, refl, Bool, true, false, ◌&&◌, ◌||◌, not, ◌==◌, if◌then◌else◌, Option,
  none, some, List, arith, Bool-cases, inl, inr,
}
use model_lib.Prelude.Pointers.{contains, count, contains-count, count-erase, count-append}
use model_lib.Party.State.{
  Players, Party, Config, update, set_party, add_party_invitation, remove_party_invitation, create,
  is_player_member, is_player_invited, CountBlock,
}
use model_lib.Party.Experience.{update_shared_experience, clear_player_points, has_points}
use model_lib.Party.Operations.{pass_leadership, join, invite_player}

-- Whether a player's pointer is to the party.
abbrev pub points_to : ℕ → Option ℕ → Bool
points_to this none = false
points_to this (some other) = other == this

abbrev pub one_if : Bool → ℕ
one_if true = 1
one_if false = 0

-- Exactly the leader and the members point to the party, the leader is no member, and nobody is
-- twice in a list; exactly the invited players list the party among their invitations, and none of
-- them is in the party.
pub record IsTied (this : ℕ) (p : Party) (ps : Players) : Type 0 where
  pub tied :
      (q : ℕ)
      → count q p.member_list + one_if (q == p.leader) ≡ one_if (points_to this (ps q).party)
  pub invited : (q : ℕ) → count q p.invite_list ≡ count this (ps q).invite_party_list
  pub once : (q : ℕ) → count q p.invite_list ≤ 1
  pub outside : (q : ℕ) → points_to this (ps q).party ≡ true → count q p.invite_list ≡ 0

pub if_cases {ℓ κ} :
    {A : Type ℓ} (P : A → Type κ) (b : Bool) {x y : A} → P x → P y → P (if b then x else y)
if_cases P true hx hy = hx
if_cases P false hx hy = hy

-- The bookkeeping of shared experience keeps what does not depend on it.
module _ {ℓ} (P : Party → Type ℓ)
    (keeps : (p : Party) (enabled : Bool) (points : List (ℕ × CountBlock))
      → P p
      → P (record p { shared_exp_enabled = enabled; point_map = points }))
    (c : Config) (now : ℕ) (ps : Players) where
  pub update_shared-keeps : (p : Party) → P p → P (update_shared_experience c now ps p)
  unfolding update_shared_experience
  update_shared-keeps p h = if_cases P p.shared_exp_active (keeps p _ p.point_map h) h

  pub clear_points-keeps : (q : ℕ) (p : Party) → P p → P (clear_player_points c now ps q p)
  unfolding clear_player_points
  clear_points-keeps q p h =
      if_cases P (has_points q p.point_map)
        (update_shared-keeps _ (keeps p p.shared_exp_enabled _ h)) h

pub IsTied-keeps :
    (this : ℕ) (ps : Players) (p : Party) (enabled : Bool) (points : List (ℕ × CountBlock))
    → IsTied this p ps
    → IsTied this (record p { shared_exp_enabled = enabled; point_map = points }) ps
IsTied-keeps this ps p enabled points h = record {
  tied = h.tied;
  invited = h.invited;
  once = h.once;
  outside = h.outside;
}

update_shared-IsTied :
    (c : Config) (now : ℕ) (ps' : Players) (this : ℕ) (p : Party) (ps : Players)
    → IsTied this p ps
    → IsTied this (update_shared_experience c now ps' p) ps
update_shared-IsTied c now ps' this p ps =
    update_shared-keeps (λ p'. IsTied this p' ps) (IsTied-keeps this ps) c now ps' p

pub set_party-invitations :
    (this q x : ℕ) (o : Option ℕ) (ps : Players)
    → count this (update q (set_party o) ps x).invite_party_list
      ≡ count this (ps x).invite_party_list
unfolding update
set_party-invitations this q x o ps = ground arith

add_invitation-party :
    (this q x : ℕ) (ps : Players) → (update q (add_party_invitation this) ps x).party ≡ (ps x).party
unfolding update add_party_invitation
add_invitation-party this q x ps = ground arith

add_invitation-count :
    (this q x : ℕ) (ps : Players)
    → count this (update q (add_party_invitation this) ps x).invite_party_list ≡ (
        if x == q && not (contains this (ps x).invite_party_list)
        then count this (ps x).invite_party_list + 1
        else count this (ps x).invite_party_list)
unfolding update add_party_invitation
add_invitation-count this q x ps = ground (arith, count-append this this (ps x).invite_party_list)

pub remove_invitation-party :
    (this q x : ℕ) (ps : Players)
    → (update q (remove_party_invitation this) ps x).party ≡ (ps x).party
unfolding update remove_party_invitation
remove_invitation-party this q x ps = ground arith

pub remove_invitation-count :
    (this q x : ℕ) (ps : Players)
    → count this (update q (remove_party_invitation this) ps x).invite_party_list ≡ (
        if x == q
        then count this (ps x).invite_party_list - 1
        else count this (ps x).invite_party_list)
unfolding update remove_party_invitation
remove_invitation-count this q x ps = ground (arith, count-erase this this (ps x).invite_party_list)

-- A new party at an address that no player knows is tied to its players.
create-IsTied :
    (this q : ℕ) (ps : Players)
    → ((x : ℕ) → (points_to this (ps x).party ≡ false) × (count this (ps x).invite_party_list ≡ 0))
    → IsTied this (create this q ps).0 (create this q ps).1
unfolding create update count
create-IsTied this q ps h = record {
  tied = λ x. ground (arith, (h x).0);
  invited = λ x. ground (arith, (h x).1);
  once = λ x. omega arith;
  outside = λ x _. refl;
}

-- Inviting a player who is not in the party leaves it tied to its players.
invite_player-IsTied :
    (this q : ℕ) (p : Party) (ps : Players)
    → points_to this (ps q).party ≡ false
    → IsTied this p ps
    → let r = invite_player this q p ps in IsTied this r.1 r.2
unfolding invite_player is_player_invited
invite_player-IsTied this q p ps free h = elim (Bool-cases (is_player_invited ps q true p)) [
  | inl e ↦ rw e h
  | inr e ↦ rw e (record {
    tied = λ x. ground (arith, h.tied x, add_invitation-party this q x ps);
    invited = λ x. ground (
      arith,
      e,
      h.invited x,
      add_invitation-count this q x ps,
      count-append x q p.invite_list,
      contains-count x p.invite_list,
      contains-count this (ps x).invite_party_list,
    );
    once = λ x.
        ground (arith, e, h.once x, contains-count x p.invite_list, count-append x q p.invite_list);
    outside = λ x f. ground (
      arith,
      free,
      f,
      h.outside x,
      add_invitation-party this q x ps,
      count-append x q p.invite_list,
    );
  })
]

-- When a player without a party joins, or is turned away, the party is tied to its players behind it.
pub join-IsTied :
    (c : Config) (now this q : ℕ) (p : Party) (ps : Players)
    → (ps q).party ≡ none
    → IsTied this p ps
    → let r = join c now this q p ps in IsTied this r.1 r.2
unfolding join is_player_invited is_player_member update remove_party_invitation
join-IsTied c now this q p ps free h =
    elim (Bool-cases (is_player_member ps q false p || not (is_player_invited ps q false p))) [
      | inl e ↦ rw e h
      | inr e ↦ rw e (
          update_shared-IsTied c now _ this _ _ (record {
            tied = λ x. ground (arith, h.tied x, free, count-append x q p.member_list);
            invited = λ x. ground (
              arith,
              h.invited x,
              count-erase x q p.invite_list,
              remove_invitation-count this q x (update q (set_party (some this)) ps),
              set_party-invitations this q x (some this) ps,
            );
            once = λ x. ground (arith, h.once x, count-erase x q p.invite_list);
            outside =
                λ x f. ground (arith, f, h.once x, h.outside x, count-erase x q p.invite_list);
          }))
    ]

-- Passing the leadership leaves the party tied to its players.
pub pass_leadership-IsTied :
    (c : Config) (now this q : ℕ) (p : Party) (ps : Players)
    → IsTied this p ps
    → IsTied this (pass_leadership c now q p ps).1 ps
unfolding pass_leadership is_player_member
pass_leadership-IsTied c now this q p ps h =
    elim (Bool-cases (not (is_player_member ps q false p) || q == p.leader)) [
      | inl e ↦ rw e h
      | inr e ↦ rw e (
          update_shared-IsTied c now ps this _ ps (record {
            tied = λ x.
                unfold count in
                ground (
                  arith,
                  e,
                  h.tied x,
                  h.tied q,
                  count-erase x q p.member_list,
                  contains-count q p.member_list,
                );
            invited = h.invited;
            once = h.once;
            outside = h.outside;
          }))
    ]
