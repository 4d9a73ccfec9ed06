-- ===== src/Party/Leaving.antt =====
-- How players leave a party of src/party.cpp, and how it is disbanded.
use model_lib.Prelude.{
  ℕ, ◌+◌, ◌-◌, ◌≤◌, ◌≡◌, refl, sym, ◌∙◌, Bool, true, false, ◌&&◌, ◌||◌, not, ◌==◌, if◌then◌else◌,
  Option, none, some, List, [], ◌∷◌, arith, Bool-cases, inl, inr,
}
use model_lib.Prelude.Pointers.{contains, erase, is_nil, count, contains-count, count-erase}
use model_lib.Party.State.{
  Players, Party, Config, update, set_party, remove_party_invitation, is_player_member,
  is_player_invited, CountBlock, can_disband,
}
use model_lib.Party.Experience.{update_shared_experience, clear_player_points}
use model_lib.Party.Operations.{
  Outcome, disband, pass_leadership, disband_if, remove_invite, leave, unset_parties,
  remove_invitations, pass_to_front, is_missing_leader,
}
use model_lib.Party.Members.{
  IsTied, points_to, one_if, set_party-invitations, remove_invitation-party,
  remove_invitation-count, pass_leadership-IsTied, update_shared-keeps, clear_points-keeps,
  IsTied-keeps, if_cases,
}

-- No player points to the party any more, and none is invited to it.
pub record IsGone (this : ℕ) (ps : Players) : Type 0 where
  pub unset : (q : ℕ) → points_to this (ps q).party ≡ false
  pub uninvited : (q : ℕ) → count this (ps q).invite_party_list ≡ 0

unset_parties-party :
    (qs : List ℕ) (x : ℕ) (ps : Players)
    → (unset_parties qs ps x).party ≡ (if contains x qs then none else (ps x).party)
unfolding unset_parties contains update
unset_parties-party [] x ps = refl
unset_parties-party (q ∷ qs) x ps =
    ground (arith, unset_parties-party qs x (update q (set_party none) ps))

unset_parties-invitations :
    (this : ℕ) (qs : List ℕ) (x : ℕ) (ps : Players)
    → count this (unset_parties qs ps x).invite_party_list ≡ count this (ps x).invite_party_list
unfolding unset_parties
unset_parties-invitations this [] x ps = refl
unset_parties-invitations this (q ∷ qs) x ps =
    unset_parties-invitations this qs x (update q (set_party none) ps)
    ∙ set_party-invitations this q x none ps

remove_invitations-party :
    (this : ℕ) (qs : List ℕ) (x : ℕ) (ps : Players)
    → (remove_invitations this qs ps x).party ≡ (ps x).party
unfolding remove_invitations
remove_invitations-party this [] x ps = refl
remove_invitations-party this (q ∷ qs) x ps =
    remove_invitations-party this qs x (update q (remove_party_invitation this) ps)
    ∙ remove_invitation-party this q x ps

remove_invitations-count :
    (this : ℕ) (qs : List ℕ) (x : ℕ) (ps : Players)
    → count this (remove_invitations this qs ps x).invite_party_list
      ≡ count this (ps x).invite_party_list - count x qs
unfolding remove_invitations count
remove_invitations-count this [] x ps = ground arith
remove_invitations-count this (q ∷ qs) x ps =
    let rest = remove_invitations-count this qs x (update q (remove_party_invitation this) ps) in
    ground (arith, rest, remove_invitation-count this q x ps)

-- What `disband` needs: whoever points to the party is on its lists, and whoever is invited.
disband-IsGone :
    (this : ℕ) (p : Party) (ps : Players)
    → ((x : ℕ)
        → one_if (points_to this (ps x).party) ≤ count x p.member_list + one_if (x == p.leader))
    → ((x : ℕ) → count this (ps x).invite_party_list ≤ count x p.invite_list)
    → IsGone this (disband this p ps)
unfolding disband update
disband-IsGone this p ps h g =
    let headless = update p.leader (set_party none) ps in
    let cleared = remove_invitations this p.invite_list headless in
    record {
      unset = λ x. ground (
        arith,
        h x,
        contains-count x p.member_list,
        unset_parties-party p.member_list x cleared,
        remove_invitations-party this p.invite_list x headless,
      );
      uninvited = λ x. ground (
        arith,
        g x,
        unset_parties-invitations this p.member_list x cleared,
        remove_invitations-count this p.invite_list x headless,
        set_party-invitations this p.leader x none ps,
      );
    }

-- The party that an operation leaves is tied to the players, and none points to one that it deletes.
abbrev pub IsSettled : ℕ → Option Party → Players → Type 0
IsSettled this none ps = IsGone this ps
IsSettled this (some p) ps = IsTied this p ps

-- When a party that is tied to its players is disbanded, no player's pointer is to it any more and no
-- player lists it among the invitations.
pub disband_tied-IsGone :
    (this : ℕ) (p : Party) (ps : Players) → IsTied this p ps → IsGone this (disband this p ps)
disband_tied-IsGone this p ps h =
    disband-IsGone this p ps (λ x. omega (arith, h.tied x)) (λ x. omega (arith, h.invited x))

-- A party that is kept has members or invited players.
abbrev pub IsUsed : Option Party → Type 0
IsUsed none = Unit
IsUsed (some p) = can_disband p ≡ false

-- The party has not the player on its list of the invited.
abbrev pub IsUninvited : ℕ → Option Party → Type 0
IsUninvited q none = Unit
IsUninvited q (some p) = count q p.invite_list ≡ 0

-- What a deletion or its omission does to a player whose pointer, or invitation, is gone.
module _ (this q : ℕ) (p : Party) (ps : Players) where
  disband_if-unset :
      (deleted : Bool)
      → let r = disband_if deleted this p ps in
        IsSettled this r.party r.players
        → points_to this (ps q).party ≡ false
        → points_to this (r.players q).party ≡ false
  unfolding disband_if
  disband_if-unset true h e = h.unset q
  disband_if-unset false h e = e

  disband_if-IsUninvited :
      (deleted : Bool)
      → let r = disband_if deleted this p ps in
        IsSettled this r.party r.players
        → count this (ps q).invite_party_list ≡ 0
        → (count this (r.players q).invite_party_list ≡ 0) × IsUninvited q r.party
  unfolding disband_if
  disband_if-IsUninvited true h e = (h.uninvited q, tt)
  disband_if-IsUninvited false h e = (e, h.invited q ∙ e)

  disband_if-result : (deleted : Bool) → (disband_if deleted this p ps).result ≡ true
  unfolding disband_if
  disband_if-result deleted = ground arith

  disband_if-IsUsed :
      (deleted : Bool)
      → (deleted ≡ false → can_disband p ≡ false)
      → IsUsed (disband_if deleted this p ps).party
  unfolding disband_if
  disband_if-IsUsed true h = tt
  disband_if-IsUsed false h = h refl

disband_if-IsSettled :
    (deleted : Bool) (this : ℕ) (p : Party) (ps : Players)
    → (deleted ≡ true → IsGone this (disband this p ps))
    → (deleted ≡ false → IsTied this p ps)
    → let r = disband_if deleted this p ps in IsSettled this r.party r.players
unfolding disband_if
disband_if-IsSettled true this p ps h g = h refl
disband_if-IsSettled false this p ps h g = g refl

remove_invitation-IsTied :
    (this q : ℕ) (p : Party) (ps : Players)
    → IsTied this p ps
    → IsTied this
        (record p { invite_list = erase q p.invite_list })
        (update q (remove_party_invitation this) ps)
remove_invitation-IsTied this q p ps h = record {
  tied = λ x. ground (arith, h.tied x, remove_invitation-party this q x ps);
  invited = λ x.
      ground
        (arith, h.invited x, count-erase x q p.invite_list, remove_invitation-count this q x ps);
  once = λ x. ground (arith, h.once x, count-erase x q p.invite_list);
  outside = λ x f.
      ground
        (arith, f, h.outside x, count-erase x q p.invite_list, remove_invitation-party this q x ps);
}

if_outcome :
    (P : Bool → Outcome → Type 0) (b : Bool) (r s : Outcome)
    → (b ≡ true → P true r)
    → (b ≡ false → P false s)
    → P b (if b then r else s)
if_outcome P true r s h g = h refl
if_outcome P false r s h g = g refl

-- Removing an invitation says whether there was one, of a player who is in the game. It leaves the
-- party tied to its players, or deletes it, and then no player points to it and none lists it. Such a
-- player is not invited then: he does not list the party, nor does the party list him. A party that is
-- left has members or invited players, if an invitation was removed.
pub remove_invite-IsSettled :
    (this q : ℕ) (p : Party) (ps : Players)
    → IsTied this p ps
    → let r = remove_invite this q p ps in
      IsSettled this r.party r.players
      × (r.result ≡ is_player_invited ps q false p)
      × ((ps q).removed ≡ false
          → (count this (r.players q).invite_party_list ≡ 0) × IsUninvited q r.party)
      × (r.result ≡ true → IsUsed r.party)
unfolding remove_invite
remove_invite-IsSettled this q p ps h =
    let p' = record p { invite_list = erase q p.invite_list } in
    let players = update q (remove_party_invitation this) ps in
    let smaller : IsTied this p' players = remove_invitation-IsTied this q p ps h in
    let gone : count this (players q).invite_party_list ≡ 0 =
      ground (arith, remove_invitation-count this q q ps, h.invited q, h.once q) in
    let settled =
      disband_if-IsSettled (can_disband p') this p' players
        (λ _. disband_tied-IsGone this p' players smaller) (λ _. smaller) in
    if_outcome
      (λ b r.
        IsSettled this r.party r.players
        × (r.result ≡ b)
        × ((ps q).removed ≡ false
            → (count this (r.players q).invite_party_list ≡ 0) × IsUninvited q r.party)
        × (r.result ≡ true → IsUsed r.party))
      (is_player_invited ps q false p) _ _
      (λ e. (
        settled,
        disband_if-result this q p' players (can_disband p'),
        λ k. disband_if-IsUninvited this q p' players (can_disband p') settled gone,
        λ k. disband_if-IsUsed this q p' players (can_disband p') (λ f. f),
      ))
      (λ e. (
        h,
        refl,
        λ k.
            let none_left : count q p.invite_list ≡ 0 =
              unfold is_player_invited in ground (arith, e, k, contains-count q p.invite_list) in
            (sym (h.invited q) ∙ none_left, none_left),
        λ k. cc k,
      ))

-- What disbanding a party needs of it.
record IsCovered (this : ℕ) (ps : Players) (p : Party) : Type 0 where
  pub covered :
      (x : ℕ)
      → one_if (points_to this (ps x).party) ≤ count x p.member_list + one_if (x == p.leader)
  pub listed : (x : ℕ) → count this (ps x).invite_party_list ≤ count x p.invite_list

module _ (this q : ℕ) (p : Party) (ps : Players) (h : IsTied this p ps)
    (inside : points_to this (ps q).party ≡ true) where
  without-IsCovered :
      IsCovered this
        (update q (set_party none) ps)
        (record p { member_list = erase q p.member_list; invite_list = erase q p.invite_list })
  without-IsCovered = record {
    covered = λ x. unfold update in ground (arith, h.tied x, count-erase x q p.member_list);
    listed = λ x. ground (
      arith,
      inside,
      h.invited x,
      h.outside q,
      count-erase x q p.invite_list,
      set_party-invitations this q x none ps,
    );
  }

  without-IsTied :
      q == p.leader ≡ false
      → IsTied this
          (record p { member_list = erase q p.member_list; invite_list = erase q p.invite_list })
          (update q (set_party none) ps)
  without-IsTied ne = record {
    tied =
        λ x. unfold update in ground (arith, ne, inside, h.tied x, count-erase x q p.member_list);
    invited = λ x. ground (
      arith,
      inside,
      h.invited x,
      h.outside q,
      count-erase x q p.invite_list,
      set_party-invitations this q x none ps,
    );
    once = λ x. ground (arith, h.once x, count-erase x q p.invite_list);
    outside = λ x f. unfold update in ground (arith, f, h.outside x, count-erase x q p.invite_list);
  }

IsCovered-keeps :
    (this : ℕ) (ps : Players) (p : Party) (enabled : Bool) (points : List (ℕ × CountBlock))
    → IsCovered this ps p
    → IsCovered this ps (record p { shared_exp_enabled = enabled; point_map = points })
IsCovered-keeps this ps p enabled points h = record { covered = h.covered; listed = h.listed }

-- Nobody in the party has been removed from the game.
abbrev pub IsPresent : ℕ → Players → Type 0
IsPresent this ps = (q : ℕ) → points_to this (ps q).party ≡ true → (ps q).removed ≡ false

pass_to_front-IsTied :
    (c : Config) (now this : ℕ) (p : Party) (ps : Players) (qs : List ℕ)
    → IsTied this p ps
    → IsTied this (pass_to_front c now p ps qs) ps
pass_to_front-IsTied c now this p ps [] h = h
pass_to_front-IsTied c now this p ps (q ∷ qs) h = pass_leadership-IsTied c now this q p ps h

-- The first member becomes the leader.
pass_to_front-leader :
    (c : Config) (now this : ℕ) (p : Party) (ps : Players) (qs : List ℕ)
    → p.member_list ≡ qs
    → is_nil qs ≡ false
    → IsTied this p ps
    → IsPresent this ps
    → (p.leader == (pass_to_front c now p ps qs).leader) ≡ false
unfolding is_nil pass_leadership is_player_member
pass_to_front-leader c now this p ps [] e n h present = absurd (ground (arith, n))
pass_to_front-leader c now this p ps (q ∷ qs) e n h present =
    let found : count q p.member_list ≡ count q qs + 1 = rw e (unfold count in ground arith) in
    let free : not (is_player_member ps q false p) || q == p.leader ≡ false =
      ground (arith, found, h.tied q, present q, contains-count q p.member_list) in
    rw (free, pass_to_front)
      (update_shared-keeps (λ p'. p.leader == p'.leader ≡ false) (λ _ _ _ k. k) c now ps _
        (ground (arith, free)))

-- Whoever leaves is not the leader of what is left, unless that is without a leader.
passed-leader :
    (c : Config) (now this q : ℕ) (p : Party) (ps : Players)
    → is_missing_leader q p ≡ false
    → IsTied this p ps
    → IsPresent this ps
    → (q
        == (if p.leader == q && not (is_missing_leader q p)
            then pass_to_front c now p ps p.member_list
            else p).leader)
      ≡ false
passed-leader c now this q p ps left h present = elim (Bool-cases (p.leader == q)) [
  | inr e ↦ rw e (ground (arith, e))
  | inl e ↦
      let some_member : is_nil p.member_list ≡ false =
        unfold is_missing_leader in ground (arith, e, left) in
      let moved = pass_to_front-leader c now this p ps p.member_list refl some_member h present in
      let same : p.leader ≡ q = ground (arith, e) in rw (e, left) (rw (← same) moved)
]

-- A player who leaves, when no player of the party has been removed from the game, has been in the
-- party exactly when this succeeds, and is off the party in any case. What is left of it is tied to its
-- players, under a new leader if need be, and if he has been in it has members or invited players; or
-- it is deleted, and then no player points to it and none lists it.
pub leave-IsSettled :
    (c : Config) (now this q : ℕ) (p : Party) (ps : Players)
    → IsTied this p ps
    → IsPresent this ps
    → let r = leave c now this q p ps in
      IsSettled this r.party r.players
      × (r.result ≡ points_to this (ps q).party)
      × (points_to this (r.players q).party ≡ false)
      × (r.result ≡ true → IsUsed r.party)
unfolding leave
leave-IsSettled c now this q p ps h present =
    let missing = is_missing_leader q p in
    let passed : Party =
      if p.leader == q && not missing then pass_to_front c now p ps p.member_list else p in
    let players = update q (set_party none) ps in
    let passed_tied : IsTied this passed ps =
      if_cases (λ p'. IsTied this p' ps) (p.leader == q && not missing)
        (pass_to_front-IsTied c now this p ps p.member_list h) h in
    let removed : Party = record passed {
      member_list = erase q passed.member_list;
      invite_list = erase q passed.invite_list;
    } in
    let p' = clear_player_points c now players q (update_shared_experience c now players removed) in
    let in_it : is_player_member ps q false p || q == p.leader ≡ points_to this (ps q).party =
      unfold is_player_member in
      ground (arith, h.tied q, contains-count q p.member_list, present q) in
    let unset : points_to this (players q).party ≡ false = unfold update in ground arith in
    if_outcome
      (λ b r.
        IsSettled this r.party r.players
        × (r.result ≡ points_to this (ps q).party)
        × (points_to this (r.players q).party ≡ false)
        × (r.result ≡ true → IsUsed r.party))
      (is_player_member ps q false p || q == p.leader) _ _
      (λ e.
        let inside : points_to this (ps q).party ≡ true = sym in_it ∙ e in
        let settled =
          disband_if-IsSettled (missing || can_disband p') this p' players
            (λ _.
              let ready =
                clear_points-keeps (IsCovered this players) (IsCovered-keeps this players) c now
                  players q _
                  (update_shared-keeps (IsCovered this players) (IsCovered-keeps this players) c now
                    players _ (without-IsCovered this q passed ps passed_tied inside)) in
              disband-IsGone this _ players ready.covered ready.listed)
            (λ f.
              clear_points-keeps (λ p''. IsTied this p'' players) (IsTied-keeps this players) c now
                players q _
                (update_shared-keeps (λ p''. IsTied this p'' players) (IsTied-keeps this players) c
                  now players _
                  (without-IsTied this q passed ps passed_tied inside
                    (passed-leader c now this q p ps (ground (arith, f)) h present)))) in
        (
          settled,
          disband_if-result this q p' players (missing || can_disband p') ∙ sym inside,
          disband_if-unset this q p' players (missing || can_disband p') settled unset,
          λ k.
              disband_if-IsUsed this q p' players (missing || can_disband p')
                (λ f. ground (arith, f)),
        ))
      (λ e. (h, sym e ∙ in_it, sym in_it ∙ e, λ k. cc k))
