-- ===== src/Party/State.antt =====
-- The parties and players of src/party.h and party.cpp. A player or a party is named by a number that
-- stands for its address.
use model_lib.Prelude.{ℕ, Bool, false, ◌&&◌, ◌==◌, if◌then◌else◌, Option, some, List, [], ◌∷◌, ◌++◌}
use model_lib.Position.{Position}
use model_lib.Prelude.Pointers.{contains, erase, is_nil}

-- What a party's operations use of a `Player`.
pub record Player : Type 0 where
  pub removed : Bool
  pub party : Option ℕ
  pub invite_party_list : List ℕ
  pub level : ℕ
  pub position : Position

abbrev pub Players : Type 0
Players = ℕ → Player

unfoldable pub update : ℕ → (Player → Player) → Players → Players
update q f ps x = if x == q then f (ps x) else ps x

abbrev pub set_party : Option ℕ → Player → Player
set_party party q = record q { party = party }

unfoldable pub add_party_invitation : ℕ → Player → Player
add_party_invitation this q =
    if contains this q.invite_party_list
    then q
    else record q { invite_party_list = q.invite_party_list ++ this ∷ [] }

abbrev pub remove_party_invitation : ℕ → Player → Player
remove_party_invitation this q = record q { invite_party_list = erase this q.invite_party_list }

-- `CountBlock_t`; the totals as 32-bit patterns
pub record CountBlock : Type 0 where
  pub total_heal : ℕ
  pub total_damage : ℕ
  pub ticks : ℕ

pub record Party : Type 0 where
  pub leader : ℕ
  pub member_list : List ℕ
  pub invite_list : List ℕ
  pub shared_exp_active : Bool
  pub shared_exp_enabled : Bool
  pub point_map : List (ℕ × CountBlock)

-- The values of the configuration; `required_level` is the level that PARTY_DIFFERENCE asks for when
-- the highest one is the argument, a product of floating-point numbers.
pub record Config : Type 0 where
  pub required_level : ℕ → ℕ
  pub party_radius : Position
  pub share_activity : ℕ

abbrev pub new_party : ℕ → Party
new_party leader = record {
  leader = leader;
  member_list = [];
  invite_list = [];
  shared_exp_active = false;
  shared_exp_enabled = false;
  point_map = [];
}

-- The constructor: the party, and the players behind it.
unfoldable pub create : ℕ → ℕ → Players → Party × Players
create this leader ps = (new_party leader, update leader (set_party (some this)) ps)

unfoldable pub can_disband : Party → Bool
can_disband p = is_nil p.member_list && is_nil p.invite_list

-- `isPlayerMember` and `isPlayerInvited` of a player that is not NULL
unfoldable pub is_player_member : Players → ℕ → Bool → Party → Bool
is_player_member ps q result p = if (ps q).removed then result else contains q p.member_list

unfoldable pub is_player_invited : Players → ℕ → Bool → Party → Bool
is_player_invited ps q result p = if (ps q).removed then result else contains q p.invite_list
