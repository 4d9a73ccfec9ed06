-- ===== src/Login/WaitList.antt =====
-- src/waitlist.h and waitlist.cpp: `WaitingList`. The clock, the numbers of players and the settings
-- are arguments; names are lists of character codes.
pub mod Invariant
pub mod Order
pub mod Place
mod Tests
use model_lib.Prelude.{
  ℕ, zero, suc, ◌+◌, ◌-◌, ◌*◌, ◌%◌, Bool, true, false, ◌&&◌, ◌||◌, not, ltb, leb, ◌==◌,
  if◌then◌else◌, Option, none, some, List, [], ◌∷◌, ◌++◌, map, length,
}
use model_lib.Prelude.Words.{u32_mod}

pub record Wait : Type 0 where
  pub ip : ℕ
  pub name : List ℕ
  pub premium : Bool
  pub timeout : ℕ

-- What the waiting list asks of a `Player`.
pub record Player : Type 0 where
  pub name : List ℕ
  pub ip : ℕ
  pub is_premium : Bool
  pub can_always_login : Bool
  pub is_account_manager : Bool

-- The players online, `MAX_PLAYERS` and `PREMIUM_SKIP_WAIT`
pub record Server : Type 0 where
  pub online : ℕ
  pub max : ℕ
  pub premium_skip_wait : Bool

-- `asLowerCaseString`: `tolower` of every character
unfoldable pub as_lower_case_string : List ℕ → List ℕ
as_lower_case_string = map (λ c. if leb 65 c && leb c 90 then c + 32 else c)

-- `operator==` of strings
unfoldable pub str_eq : List ℕ → List ℕ → Bool
str_eq [] [] = true
str_eq [] (d ∷ ds) = false
str_eq (c ∷ cs) [] = false
str_eq (c ∷ cs) (d ∷ ds) = c == d && str_eq cs ds

-- The test of `find`: the entry of a player.
unfoldable pub is_entry : ℕ → List ℕ → Wait → Bool
is_entry ip name w = w.ip == ip && str_eq (as_lower_case_string w.name) (as_lower_case_string name)

-- `find`: the slot of the player, counted from `slot` on; `none` is `waitList.end()`.
unfoldable pub find : ℕ → List ℕ → ℕ → List Wait → Option ℕ
find ip name slot [] = none
find ip name slot (w ∷ ws) =
    let rest = find ip name (slot + 1) ws in if is_entry ip name w then some slot else rest

unfoldable pub get_time : ℕ → ℕ
get_time slot =
    if ltb slot 5
    then 5
    else if ltb slot 10
    then 10
    else if ltb slot 20
    then 20
    else if ltb slot 50
    then 60
    else 120

unfoldable pub get_timeout : ℕ → ℕ
get_timeout slot = get_time slot + 15

unfoldable pub cleanup : ℕ → List Wait → List Wait
cleanup now [] = []
cleanup now (w ∷ ws) = if leb w.timeout now then cleanup now ws else w ∷ cleanup now ws

-- `-1` is `none`.
unfoldable pub get_slot : Player → List Wait → Option ℕ
get_slot p ws = find p.ip p.name 1 ws

-- The entries of the list before the first one that is not premium, counted from `slot` on, and the
-- insertion there.
unfoldable pub premium_slot : ℕ → List Wait → ℕ
premium_slot slot [] = slot
premium_slot slot (w ∷ ws) =
    let rest = premium_slot (slot + 1) ws in if not w.premium then slot else rest

unfoldable pub insert_premium : Wait → List Wait → List Wait
insert_premium v [] = v ∷ []
insert_premium v (w ∷ ws) = if not w.premium then v ∷ w ∷ ws else w ∷ insert_premium v ws

-- The iterator that belongs to a slot: a new timeout, and `erase`.
unfoldable pub set_timeout : ℕ → ℕ → List Wait → List Wait
set_timeout slot timeout [] = []
set_timeout slot timeout (w ∷ ws) =
    if slot == 1 then record w { timeout = timeout } ∷ ws else w ∷ set_timeout (slot - 1) timeout ws

unfoldable pub erase : ℕ → List Wait → List Wait
erase slot [] = []
erase slot (w ∷ ws) = if slot == 1 then ws else w ∷ erase (slot - 1) ws

unfoldable pub new_wait : Player → ℕ → Wait
new_wait p timeout = record { ip = p.ip; name = p.name; premium = p.is_premium; timeout = timeout }

-- The end of `login`: a player who does not wait yet.
unfoldable pub enqueue : Player → ℕ → List Wait → List Wait
enqueue p now ws =
    if p.is_premium
    then insert_premium (new_wait p (now + get_timeout (premium_slot 1 ws) * 1000)) ws
    else ws ++ new_wait p (now + get_timeout (length ws + 1) * 1000) ∷ []

abbrev pub is_empty : List Wait → Bool
is_empty [] = true
is_empty (w ∷ ws) = false

-- The first test of `login`.
unfoldable pub passes : Player → Server → List Wait → Bool
passes p s ws =
    p.can_always_login
    || p.is_account_manager
    || (is_empty ws && ltb s.online s.max)
    || (s.premium_skip_wait && p.is_premium)

-- `login` with the clock as `cleanup` reads it and as it is read again for the timeout.
unfoldable pub login : Player → Server → ℕ → ℕ → List Wait → Bool × List Wait
login p s now later all =
    let ws = cleanup now all in
    if passes p s all then (true, all) else elim (find p.ip p.name 1 ws) [
      | none ↦ (false, enqueue p later ws)
      | some slot ↦
          if ltb s.max ((s.online + slot) % u32_mod)
          then (false, set_timeout slot (later + get_timeout slot * 1000) ws)
          else (true, erase slot ws)
    ]
