-- ===== src/Login/WaitList/Order.antt =====
-- The places in the waiting list, and whom a login moves.
use model_lib.Prelude.{
  ℕ, ◌+◌, ◌-◌, ◌*◌, ◌≤◌, ◌≡◌, refl, sym, ◌∙◌, true, false, some, if◌then◌else◌, List, [], ◌∷◌, ◌++◌,
  length, arith,
}
use model_lib.Login.WaitList.{
  Wait, Player, Server, as_lower_case_string, str_eq, is_entry, find, cleanup, premium_slot,
  insert_premium, set_timeout, erase, new_wait, enqueue, login, passes, get_timeout,
}
use model_lib.Login.WaitList.Invariant.{login_cases}

-- The entries of all other players.
pub others : Player → List Wait → List Wait
others p [] = []
others p (w ∷ ws) = if is_entry p.ip p.name w then others p ws else w ∷ others p ws

pub find-ge :
    (ip : ℕ) (name : List ℕ) (slot k : ℕ) (ws : List Wait)
    → find ip name slot ws ≡ some k
    → slot ≤ k
unfolding find
find-ge ip name slot k [] h = cc
find-ge ip name slot k (w ∷ ws) h = ground (arith, find-ge ip name (slot + 1) k ws)

is_entry_self : (cs : List ℕ) → str_eq cs cs ≡ true
unfolding str_eq
is_entry_self [] = refl
is_entry_self (c ∷ cs) = ground (arith, is_entry_self cs)

pub is_entry-new_wait : (p : Player) (t : ℕ) → is_entry p.ip p.name (new_wait p t) ≡ true
unfolding is_entry new_wait
is_entry-new_wait p t = ground (arith, is_entry_self (as_lower_case_string p.name))

is_entry-timeout :
    (ip : ℕ) (name : List ℕ) (w : Wait) (t : ℕ)
    → is_entry ip name (record w { timeout = t }) ≡ is_entry ip name w
unfolding is_entry
is_entry-timeout ip name w t = refl

pub find-set_timeout :
    (ip : ℕ) (name : List ℕ) (slot k j t : ℕ) (ws : List Wait)
    → find ip name slot ws ≡ some k
    → j ≡ k + 1 - slot
    → find ip name slot (set_timeout j t ws) ≡ some k
unfolding find set_timeout
find-set_timeout ip name slot k j t [] h e = h
find-set_timeout ip name slot k j t (w ∷ ws) h e = ground (
  arith,
  find-ge ip name (slot + 1) k ws,
  find-set_timeout ip name (slot + 1) k (j - 1) t ws,
  is_entry-timeout ip name w t,
)

others-set_timeout :
    (p : Player) (slot k j t : ℕ) (ws : List Wait)
    → find p.ip p.name slot ws ≡ some k
    → j ≡ k + 1 - slot
    → others p (set_timeout j t ws) ≡ others p ws
unfolding find set_timeout others
others-set_timeout p slot k j t [] h e = refl
others-set_timeout p slot k j t (w ∷ ws) h e = ground (
  arith,
  find-ge p.ip p.name (slot + 1) k ws,
  others-set_timeout p (slot + 1) k (j - 1) t ws,
  is_entry-timeout p.ip p.name w t,
)

others-erase :
    (p : Player) (slot k j : ℕ) (ws : List Wait)
    → find p.ip p.name slot ws ≡ some k
    → j ≡ k + 1 - slot
    → others p (erase j ws) ≡ others p ws
unfolding find erase others
others-erase p slot k j [] h e = refl
others-erase p slot k j (w ∷ ws) h e =
    ground (arith, find-ge p.ip p.name (slot + 1) k ws, others-erase p (slot + 1) k (j - 1) ws)

others-insert_premium :
    (p : Player) (v : Wait) (ws : List Wait)
    → is_entry p.ip p.name v ≡ true
    → others p (insert_premium v ws) ≡ others p ws
unfolding insert_premium others
others-insert_premium p v [] h = ground (arith, h)
others-insert_premium p v (w ∷ ws) h = ground (arith, others-insert_premium p v ws h)

others-append :
    (p : Player) (v : Wait) (ws : List Wait)
    → is_entry p.ip p.name v ≡ true
    → others p (ws ++ v ∷ []) ≡ others p ws
unfolding others
others-append p v [] h = ground (arith, h)
others-append p v (w ∷ ws) h = ground (arith, others-append p v ws h)

others-enqueue : (p : Player) (now : ℕ) (ws : List Wait) → others p (enqueue p now ws) ≡ others p ws
unfolding enqueue
others-enqueue p now ws = ground (
  arith,
  others-insert_premium p (new_wait p (now + get_timeout (premium_slot 1 ws) * 1000)) ws,
  others-append p (new_wait p (now + get_timeout (length ws + 1) * 1000)) ws,
  is_entry-new_wait p (now + get_timeout (premium_slot 1 ws) * 1000),
  is_entry-new_wait p (now + get_timeout (length ws + 1) * 1000),
)

-- A login that goes through the list neither drops, moves nor changes any other player whose entry
-- has not run out.
login-others :
    (p : Player) (s : Server) (now later : ℕ) (ws : List Wait)
    → passes p s ws ≡ false
    → others p (login p s now later ws).1 ≡ others p (cleanup now ws)
login-others p s now later ws h =
    login_cases (λ r. others p r.1 ≡ others p (cleanup now ws)) p s now later ws
      (λ e. cc (sym e ∙ h)) (λ _ _. others-enqueue p later (cleanup now ws))
      (λ slot _ f _. others-set_timeout p 1 slot slot _ (cleanup now ws) f (omega arith))
      (λ slot _ f _. others-erase p 1 slot slot (cleanup now ws) f (omega arith))
