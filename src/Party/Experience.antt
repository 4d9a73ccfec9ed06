-- ===== src/Party/Experience.antt =====
-- Who may share the experience of a party, and the points that decide it: `canUseSharedExperience` and
-- what updates it in src/party.cpp.
use model_lib.Prelude.{
  ℕ, ◌+◌, ◌%◌, ◌^◌, Bool, true, false, ◌&&◌, ◌||◌, not, ltb, leb, ◌==◌, if◌then◌else◌, Option, none,
  some, List, [], ◌∷◌,
}
use model_lib.Position.{are_in_range}
use model_lib.Prelude.Pointers.{is_nil}
use model_lib.Party.State.{Players, CountBlock, Party, Config}

unfoldable pub highest_level : Players → ℕ → List ℕ → ℕ
highest_level ps level [] = level
highest_level ps level (q ∷ qs) =
    highest_level ps (if ltb level (ps q).level then (ps q).level else level) qs

unfoldable pub find_points : ℕ → List (ℕ × CountBlock) → Option CountBlock
find_points q [] = none
find_points q (b ∷ bs) = if b.0 == q then some b.1 else find_points q bs

-- `canUseSharedExperience`, at the time `now`; 0 asks for the party's highest level.
unfoldable pub can_use_shared_experience : Config → ℕ → Players → ℕ → ℕ → Party → Bool
can_use_shared_experience c now ps q highest p =
    let level =
      if highest == 0 then highest_level ps (ps p.leader).level p.member_list else highest in
    if (ps q).removed
    then false
    else if ltb (ps q).level (c.required_level level)
        || not (are_in_range c.party_radius (ps p.leader).position (ps q).position)
    then false
    else elim (find_points q p.point_map) [
      | none ↦ false
      | some b ↦ leb now (b.ticks + c.share_activity)
    ]

unfoldable pub all_can_use : Config → ℕ → Players → ℕ → Party → List ℕ → Bool
all_can_use c now ps highest p [] = true
all_can_use c now ps highest p (q ∷ qs) =
    can_use_shared_experience c now ps q highest p && all_can_use c now ps highest p qs

unfoldable pub can_enable_shared_experience : Config → ℕ → Players → Party → Bool
can_enable_shared_experience c now ps p =
    let highest = highest_level ps (ps p.leader).level p.member_list in
    not (is_nil p.member_list)
    && all_can_use c now ps highest p p.member_list
    && can_use_shared_experience c now ps p.leader highest p

unfoldable pub update_shared_experience : Config → ℕ → Players → Party → Party
update_shared_experience c now ps p =
    if p.shared_exp_active
    then record p { shared_exp_enabled = can_enable_shared_experience c now ps p }
    else p

-- `setSharedExperience`: the result and the party.
unfoldable pub set_shared_experience : Config → ℕ → Players → ℕ → Bool → Party → Bool × Party
set_shared_experience c now ps q active p =
    if (ps q).removed || not (q == p.leader)
    then (false, p)
    else if active
    then (
      true,
      if p.shared_exp_active then p else record p {
        shared_exp_active = true;
        shared_exp_enabled =
            can_enable_shared_experience c now ps (record p { shared_exp_active = true });
      },
    )
    else (true, record p { shared_exp_active = false })

unfoldable pub erase_points : ℕ → List (ℕ × CountBlock) → List (ℕ × CountBlock)
erase_points q [] = []
erase_points q (b ∷ bs) = if b.0 == q then erase_points q bs else b ∷ erase_points q bs

unfoldable pub has_points : ℕ → List (ℕ × CountBlock) → Bool
has_points q [] = false
has_points q (b ∷ bs) = b.0 == q || has_points q bs

unfoldable pub clear_player_points : Config → ℕ → Players → ℕ → Party → Party
clear_player_points c now ps q p =
    if has_points q p.point_map
    then update_shared_experience c now ps (record p { point_map = erase_points q p.point_map })
    else p

-- Points of a player, new or added to those that are there.
unfoldable pub add_heal : ℕ → ℕ → ℕ → List (ℕ × CountBlock) → List (ℕ × CountBlock)
add_heal now q points [] = (q, record { total_heal = points; total_damage = 0; ticks = now }) ∷ []
add_heal now q points (b ∷ bs) =
    if b.0 == q
    then (q, record b.1 { total_heal = (b.1.total_heal + points) % 2 ^ 32; ticks = now }) ∷ bs
    else b ∷ add_heal now q points bs

unfoldable pub add_damage : ℕ → ℕ → ℕ → List (ℕ × CountBlock) → List (ℕ × CountBlock)
add_damage now q points [] = (q, record { total_heal = 0; total_damage = points; ticks = now }) ∷ []
add_damage now q points (b ∷ bs) =
    if b.0 == q
    then (q, record b.1 { total_damage = (b.1.total_damage + points) % 2 ^ 32; ticks = now }) ∷ bs
    else b ∷ add_damage now q points bs

unfoldable pub add_player_healed_member : Config → ℕ → Players → ℕ → ℕ → Party → Party
add_player_healed_member c now ps q points p =
    if points == 0
    then p
    else update_shared_experience c now ps
        (record p { point_map = add_heal now q points p.point_map })

unfoldable pub add_player_damage_monster : Config → ℕ → Players → ℕ → ℕ → Party → Party
add_player_damage_monster c now ps q points p =
    if points == 0
    then p
    else update_shared_experience c now ps
        (record p { point_map = add_damage now q points p.point_map })
