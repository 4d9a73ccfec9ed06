-- ===== src/Party/Tests.antt =====
-- Tests of the parties, and the theorems at concrete inputs.
use model_lib.Prelude.{
  ℕ, ◌+◌, ◌*◌, ◌/◌, ◌≡◌, refl, true, false, ◌||◌, ◌==◌, if◌then◌else◌, some, none, [], ◌∷◌, arith,
}
use model_lib.Position.{are_in_range, distance}
use model_lib.Prelude.Pointers.{contains, erase, is_nil, count}
use model_lib.Party.State.{Players, Party, Config, CountBlock, is_player_member, is_player_invited}
use model_lib.Party.Experience.{
  set_shared_experience, can_enable_shared_experience, can_use_shared_experience, all_can_use,
  highest_level, find_points, update_shared_experience, add_player_healed_member, add_heal,
}
use model_lib.Party.Operations.{disband, pass_leadership, join, remove_invite, leave}
use model_lib.Party.Members.{IsTied, points_to, join-IsTied}
use model_lib.Party.Leaving.{
  IsSettled, IsGone, IsUsed, IsUninvited, disband_tied-IsGone, remove_invite-IsSettled,
  leave-IsSettled,
}

abbrev config : Config
config = record {
  required_level = λ l. l * 2 / 3;
  party_radius = record { x = 30; y = 30; z = 1 };
  share_activity = 120;
}

abbrev active : ℕ → ℕ × CountBlock
active q = (q, record { total_heal = 0; total_damage = 10; ticks = 400 })

abbrev group : Party
group = record {
  leader = 1;
  member_list = 2 ∷ [];
  invite_list = 3 ∷ [];
  shared_exp_active = false;
  shared_exp_enabled = false;
  point_map = active 1 ∷ active 2 ∷ [];
}

-- Players 1 and 2 are in the party 7, and 3 is invited to it.
abbrev people : Players
people q = record {
  removed = false;
  party = if q == 1 || q == 2 then some 7 else none;
  invite_party_list = if q == 3 then 7 ∷ [] else [];
  level = 10 + q;
  position = record { x = 100 + q; y = 100; z = 7 };
}

group-IsTied : IsTied 7 group people
group-IsTied = record {
  tied = λ q. unfold count in ground arith;
  invited = λ q. unfold count in ground arith;
  once = λ q. unfold count in ground arith;
  outside = λ q e. unfold count in ground (arith, e);
}

shares : (set_shared_experience config 500 people 1 true group).1.shared_exp_enabled ≡ true
unfolding set_shared_experience can_enable_shared_experience can_use_shared_experience all_can_use
    highest_level find_points are_in_range distance is_nil
shares = refl

healed :
    (add_player_healed_member config 500 people 2 30 group).point_map
    ≡ active 1 ∷ (2, record { total_heal = 30; total_damage = 10; ticks = 500 }) ∷ []
unfolding add_player_healed_member add_heal update_shared_experience
healed = refl

passed :
    (pass_leadership config 500 2 group people).1
    ≡ record group { leader = 2; member_list = 1 ∷ [] }
unfolding pass_leadership is_player_member contains erase update_shared_experience
passed = refl

join-IsTied_example :
    IsTied 7 (join config 500 7 3 group people).1 (join config 500 7 3 group people).2
join-IsTied_example = join-IsTied config 500 7 3 group people refl group-IsTied

disband_tied-IsGone_example : IsGone 7 (disband 7 group people)
disband_tied-IsGone_example = disband_tied-IsGone 7 group people group-IsTied

remove_invite-IsSettled_example :
    let r = remove_invite 7 3 group people in
    IsSettled 7 r.party r.players
    × (r.result ≡ is_player_invited people 3 false group)
    × ((people 3).removed ≡ false
        → (count 7 (r.players 3).invite_party_list ≡ 0) × IsUninvited 3 r.party)
    × (r.result ≡ true → IsUsed r.party)
remove_invite-IsSettled_example = remove_invite-IsSettled 7 3 group people group-IsTied

leave-IsSettled_example :
    let r = leave config 500 7 1 group people in
    IsSettled 7 r.party r.players
    × (r.result ≡ points_to 7 (people 1).party)
    × (points_to 7 (r.players 1).party ≡ false)
    × (r.result ≡ true → IsUsed r.party)
leave-IsSettled_example = leave-IsSettled config 500 7 1 group people group-IsTied (λ q e. refl)
