-- ===== src/Login/WaitList/Tests.antt =====
-- Tests of the waiting list, and the theorems at concrete inputs.
use model_lib.Prelude.{
  ◌+◌, ◌*◌, ℕ, ◌+◌, ◌%◌, ◌≤◌, ◌<◌, ◌≡◌, ◌⊎◌, refl, true, false, none, some, List, [], ◌∷◌, length,
  arith,
}
use model_lib.Prelude.Words.{u32_mod}
use model_lib.Login.WaitList.{
  Wait, Player, Server, new_wait, get_timeout, login, cleanup, get_slot, passes, is_entry, str_eq,
  as_lower_case_string,
}
use model_lib.Login.WaitList.Invariant.{IsQueue, login-IsQueue}
use model_lib.Login.WaitList.Place.{login_place, login_stale}

abbrev anna : Wait
anna = record { ip = 1; name = 65 ∷ []; premium = true; timeout = 9000 }

abbrev bob : Wait
bob = record { ip = 2; name = 66 ∷ []; premium = false; timeout = 8000 }

abbrev bob_again : Player
bob_again = record {
  name = 98 ∷ [];
  ip = 2;
  is_premium = false;
  can_always_login = false;
  is_account_manager = false;
}

abbrev carl : Player
carl = record bob_again { name = 67 ∷ []; ip = 3; is_premium = true }

abbrev crowded : Server
crowded = record { online = 10; max = 10; premium_skip_wait = false }

abbrev roomy : Server
roomy = record { online = 10; max = 20; premium_skip_wait = false }

abbrev queue : List Wait
queue = anna ∷ bob ∷ []

queue-IsQueue : IsQueue queue
unfolding is_entry str_eq as_lower_case_string
queue-IsQueue = record {
  distinct = ((refl, tt), (tt, tt));
  ordered = ((λ h. (refl, tt)), ((λ h. tt), tt));
}

login-IsQueue_example : IsQueue (login carl crowded 5000 5001 queue).1
login-IsQueue_example = login-IsQueue carl crowded 5000 5001 queue queue-IsQueue

login_place_example :
    let r = login bob_again roomy 5000 5001 queue in
    let before = get_slot bob_again (cleanup 5000 queue) in
    (r.0 ≡ true
      → (slot : ℕ) × (before ≡ some slot)
        × ((10 + slot) % u32_mod ≤ 20)
        × (get_slot bob_again r.1 ≡ none))
    × (r.0 ≡ false
        → ((slot : ℕ) × (before ≡ some slot)
            × (20 < (10 + slot) % u32_mod)
            × (get_slot bob_again r.1 ≡ some slot))
          ⊎ ((before ≡ none) × (get_slot bob_again r.1 ≡ some (1 + length (cleanup 5000 queue)))))
login_place_example =
    login_place bob_again roomy 5000 5001 queue queue-IsQueue (unfold passes in refl)

login_stale_example :
    ((login carl roomy 9000 9001 queue).0 ≡ false)
    × ((login carl roomy 9000 9001 queue).1 ≡ new_wait carl (9001 + get_timeout 1 * 1000) ∷ [])
    × (get_slot carl (login carl roomy 9000 9001 queue).1 ≡ some 1)
login_stale_example =
    login_stale carl roomy 9000 9001 anna (bob ∷ []) (omega arith) refl refl refl (omega arith)
