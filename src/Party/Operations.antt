-- ===== src/Party/Operations.antt =====
-- The operations of `Party` in src/party.cpp, by which players come, go and pass the leadership on.
use model_lib.Prelude.{
  ℕ, Bool, true, false, ◌&&◌, ◌||◌, not, ◌==◌, if◌then◌else◌, Option, none, some, List, [], ◌∷◌,
  ◌++◌,
}
use model_lib.Prelude.Pointers.{erase, is_nil}
use model_lib.Party.State.{
  Players, update, set_party, add_party_invitation, remove_party_invitation, Party, Config,
  can_disband, is_player_member, is_player_invited,
}
use model_lib.Party.Experience.{update_shared_experience, clear_player_points}

-- What an operation returns, the party unless it is deleted, and the players.
pub record Outcome : Type 0 where
  pub result : Bool
  pub party : Option Party
  pub players : Players

unfoldable pub remove_invitations : ℕ → List ℕ → Players → Players
remove_invitations this [] ps = ps
remove_invitations this (q ∷ qs) ps =
    remove_invitations this qs (update q (remove_party_invitation this) ps)

unfoldable pub unset_parties : List ℕ → Players → Players
unset_parties [] ps = ps
unset_parties (q ∷ qs) ps = unset_parties qs (update q (set_party none) ps)

-- The players when the party is deleted.
unfoldable pub disband : ℕ → Party → Players → Players
disband this p ps =
    unset_parties p.member_list
      (remove_invitations this p.invite_list (update p.leader (set_party none) ps))

unfoldable pub pass_leadership : Config → ℕ → ℕ → Party → Players → Bool × Party
pass_leadership c now q p ps =
    if not (is_player_member ps q false p) || q == p.leader then (false, p) else (
      true,
      update_shared_experience c now ps
          (record p { leader = q; member_list = p.leader ∷ erase q p.member_list }),
    )

unfoldable pub join : Config → ℕ → ℕ → ℕ → Party → Players → Bool × Party × Players
join c now this q p ps =
    if is_player_member ps q false p || not (is_player_invited ps q false p)
    then (false, p, ps)
    else (let players =
          update q (remove_party_invitation this) (update q (set_party (some this)) ps) in
        (
          true,
          update_shared_experience c now players (record p {
            member_list = p.member_list ++ q ∷ [];
            invite_list = erase q p.invite_list;
          }),
          players,
        ))

unfoldable pub disband_if : Bool → ℕ → Party → Players → Outcome
disband_if deleted this p ps =
    if deleted
    then record { result = true; party = none; players = disband this p ps }
    else record { result = true; party = some p; players = ps }

unfoldable pub remove_invite : ℕ → ℕ → Party → Players → Outcome
remove_invite this q p ps =
    let p' = record p { invite_list = erase q p.invite_list } in
    let players = update q (remove_party_invitation this) ps in
    if is_player_invited ps q false p
    then disband_if (can_disband p') this p' players
    else record { result = false; party = some p; players = ps }

unfoldable pub revoke_invitation : ℕ → ℕ → Party → Players → Outcome
revoke_invitation this q p ps =
    if (ps q).removed
    then record { result = false; party = some p; players = ps }
    else remove_invite this q p ps

unfoldable pub invite_player : ℕ → ℕ → Party → Players → Bool × Party × Players
invite_player this q p ps = if is_player_invited ps q true p then (false, p, ps) else (
  true,
  record p { invite_list = p.invite_list ++ q ∷ [] },
  update q (add_party_invitation this) ps,
)

-- Who is the leader when the player has left: the first member follows a leader, unless the party is
-- left without one.
abbrev pub pass_to_front : Config → ℕ → Party → Players → List ℕ → Party
pass_to_front c now p ps [] = p
pass_to_front c now p ps (q ∷ qs) = (pass_leadership c now q p ps).1

abbrev pub single : List ℕ → Bool
single [] = false
single (q ∷ qs) = is_nil qs

unfoldable pub is_missing_leader : ℕ → Party → Bool
is_missing_leader q p =
    p.leader == q && (is_nil p.member_list || single p.member_list && is_nil p.invite_list)

unfoldable pub leave : Config → ℕ → ℕ → ℕ → Party → Players → Outcome
leave c now this q p ps =
    let missing = is_missing_leader q p in
    let passed =
      if p.leader == q && not missing then pass_to_front c now p ps p.member_list else p in
    let removed : Party = record passed {
      member_list = erase q passed.member_list;
      invite_list = erase q passed.invite_list;
    } in
    let players = update q (set_party none) ps in
    let p' = clear_player_points c now players q (update_shared_experience c now players removed) in
    if is_player_member ps q false p || q == p.leader
    then disband_if (missing || can_disband p') this p' players
    else record { result = false; party = some p; players = ps }
