-- ===== src/Login/WaitList/Place.antt =====
-- The slots of the waiting list (src/waitlist.cpp): who is admitted, and who waits where.
use model_lib.Prelude.{
  ℕ, ◌+◌, ◌*◌, ◌-◌, ◌%◌, ◌≤◌, ◌<◌, ◌≡◌, ◌⊎◌, refl, ◌∙◌, true, false, none, some, if◌then◌else◌,
  List, [], ◌∷◌, ◌++◌, length, Bool-cases, inl, inr, arith,
}
use model_lib.Prelude.All.{All}
use model_lib.Prelude.Words.{u32_mod}
use model_lib.Login.WaitList.{
  Wait, Player, Server, as_lower_case_string, str_eq, is_entry, find, cleanup, insert_premium,
  erase, new_wait, get_timeout, premium_slot, enqueue, login, passes, get_slot,
}
use model_lib.Login.WaitList.Invariant.{
  IsQueue, Distinct, PremiumFirst, IsRegular, login_cases, cleanup-IsQueue, find-none,
}
use model_lib.Login.WaitList.Order.{find-ge, is_entry-new_wait, find-set_timeout}

-- How many premium players wait.
pub count_premium : List Wait → ℕ
count_premium [] = 0
count_premium (w ∷ ws) = (if w.premium then 1 else 0) + count_premium ws

-- A player behind others: the counting of slots.
find-append :
    (p : Player) (v : Wait) (slot k : ℕ) (ws : List Wait)
    → is_entry p.ip p.name v ≡ true
    → All (λ w. is_entry p.ip p.name w ≡ false) ws
    → k ≡ slot + length ws
    → find p.ip p.name slot (ws ++ v ∷ []) ≡ some k
unfolding find
find-append p v slot k [] h a e = ground (arith, h)
find-append p v slot k (w ∷ ws) h a e = ground (arith, find-append p v (slot + 1) k ws h a.1, a.0)

find-insert_premium :
    (p : Player) (v : Wait) (slot k : ℕ) (ws : List Wait)
    → is_entry p.ip p.name v ≡ true
    → All (λ w. is_entry p.ip p.name w ≡ false) ws
    → PremiumFirst ws
    → k ≡ slot + count_premium ws
    → find p.ip p.name slot (insert_premium v ws) ≡ some k
unfolding find insert_premium count_premium
find-insert_premium p v slot k [] h a o e = ground (arith, h)
find-insert_premium p v slot k (w ∷ ws) h a o e = elim (Bool-cases w.premium) [
  | inl x ↦
      ground (arith, x, find-insert_premium p v (slot + 1) k ws h a.1 o.1 (ground (arith, x)), a.0)
  | inr x ↦ ground (arith, x, h, count_regular ws (o.0 x))
]
  where
    count_regular : (us : List Wait) → All IsRegular us → count_premium us ≡ 0
    count_regular [] r = refl
    count_regular (u ∷ us) r = ground (arith, count_regular us r.1, r.0)

str_eq_sound : (cs ds : List ℕ) → str_eq cs ds ≡ true → cs ≡ ds
unfolding str_eq
str_eq_sound [] [] h = refl
str_eq_sound [] (d ∷ ds) h = cc
str_eq_sound (c ∷ cs) [] h = cc
str_eq_sound (c ∷ cs) (d ∷ ds) h = ground (arith, str_eq_sound cs ds)

-- An entry of the player stands for the player.
is_entry-same :
    (ip : ℕ) (name : List ℕ) (w u : Wait)
    → is_entry ip name w ≡ true
    → is_entry ip name u ≡ is_entry w.ip w.name u
unfolding is_entry
is_entry-same ip name w u h =
    ground (arith, str_eq_sound (as_lower_case_string w.name) (as_lower_case_string name))

find-missing :
    (ip : ℕ) (name : List ℕ) (slot : ℕ) (w : Wait) (ws : List Wait)
    → is_entry ip name w ≡ true
    → All (λ u. is_entry w.ip w.name u ≡ false) ws
    → find ip name slot ws ≡ none
unfolding find
find-missing ip name slot w [] h a = refl
find-missing ip name slot w (u ∷ us) h a =
    ground (arith, is_entry-same ip name w u h, a.0, find-missing ip name (slot + 1) w us h a.1)

find-erase :
    (p : Player) (slot k j : ℕ) (ws : List Wait)
    → Distinct ws
    → find p.ip p.name slot ws ≡ some k
    → j ≡ k + 1 - slot
    → find p.ip p.name slot (erase j ws) ≡ none
unfolding find erase
find-erase p slot k j [] d h e = refl
find-erase p slot k j (w ∷ ws) d h e = elim (Bool-cases (is_entry p.ip p.name w)) [
  | inl x ↦ ground (arith, h, x, find-missing p.ip p.name slot w ws x d.0)
  | inr x ↦
      ground
        (arith, h, x, find-ge p.ip p.name (slot + 1) k ws, find-erase p (slot + 1) k (j - 1) ws d.1)
]

get_slot-enqueue :
    (p : Player) (now : ℕ) (ws : List Wait)
    → IsQueue ws
    → find p.ip p.name 1 ws ≡ none
    → find p.ip p.name 1 (enqueue p now ws)
      ≡ some (1 + (if p.is_premium then count_premium ws else length ws))
unfolding enqueue
get_slot-enqueue p now ws q h = elim (Bool-cases p.is_premium) [
  | inl e ↦
      simp e
        (find-insert_premium p _ 1 _ ws (entry _) (find-none p.ip p.name 1 ws h) q.ordered refl)
  | inr e ↦ simp e (find-append p _ 1 _ ws (entry _) (find-none p.ip p.name 1 ws h) refl)
]
  where
    entry : (t : ℕ) → is_entry p.ip p.name (new_wait p t) ≡ true
    entry t = is_entry-new_wait p t

-- What a login that goes through the list decides, by the place of the player among the entries that
-- have not run out. Who is admitted had a slot within the free places and has left the list. Who is
-- turned away keeps the slot, when that lies beyond the free places, or, when new, gets the one
-- behind the premium players, or behind everybody, and is found there afterwards.
pub login_place :
    (p : Player) (s : Server) (now later : ℕ) (ws : List Wait)
    → IsQueue ws
    → passes p s ws ≡ false
    → let r = login p s now later ws in
      let before = get_slot p (cleanup now ws) in
      (r.0 ≡ true
        → (slot : ℕ) × (before ≡ some slot)
          × ((s.online + slot) % u32_mod ≤ s.max)
          × (get_slot p r.1 ≡ none))
      × (r.0 ≡ false
          → ((slot : ℕ) × (before ≡ some slot)
              × (s.max < (s.online + slot) % u32_mod)
              × (get_slot p r.1 ≡ some slot))
            ⊎ ((before ≡ none)
                × (get_slot p r.1
                    ≡ some (
                        1
                        + (if p.is_premium
                            then count_premium (cleanup now ws)
                            else length (cleanup now ws))))))
unfolding get_slot
login_place p s now later ws q h =
    login_cases
      (λ r.
        (r.0 ≡ true
          → (slot : ℕ) × (find p.ip p.name 1 (cleanup now ws) ≡ some slot)
            × ((s.online + slot) % u32_mod ≤ s.max)
            × (find p.ip p.name 1 r.1 ≡ none))
        × (r.0 ≡ false
            → ((slot : ℕ) × (find p.ip p.name 1 (cleanup now ws) ≡ some slot)
                × (s.max < (s.online + slot) % u32_mod)
                × (find p.ip p.name 1 r.1 ≡ some slot))
              ⊎ ((find p.ip p.name 1 (cleanup now ws) ≡ none)
                  × (find p.ip p.name 1 r.1
                      ≡ some (
                          1
                          + (if p.is_premium
                              then count_premium (cleanup now ws)
                              else length (cleanup now ws)))))))
      p s now later ws (λ e. absurd (ground (arith, e, h)))
      (λ _ f.
        ((λ e. absurd (ground (arith, e))), (λ _. inr (f, get_slot-enqueue p later _ kept f))))
      (λ slot _ f t. (
        (λ e. absurd (ground (arith, e))),
        (λ _. inl (
          slot,
          f,
          ground (arith, t),
          find-set_timeout p.ip p.name 1 slot slot _ _ f (omega arith),
        )),
      ))
      (λ slot _ f t. (
        (λ _.
            (slot, f, ground (arith, t), find-erase p 1 slot slot _ kept.distinct f (omega arith))),
        (λ e. absurd (ground (arith, e))),
      ))
  where
    kept : IsQueue (cleanup now ws)
    kept = cleanup-IsQueue now ws q

cleanup-nil : (now : ℕ) (ws : List Wait) → All (λ v. v.timeout ≤ now) ws → cleanup now ws ≡ []
unfolding cleanup
cleanup-nil now [] a = refl
cleanup-nil now (w ∷ ws) a = ground (arith, a.0, cleanup-nil now ws a.1)

-- A list in which every entry has run out still turns a newcomer away, who then stands in it alone,
-- also when the server has free places: the list is tested before it is cleaned up.
pub login_stale :
    (p : Player) (s : Server) (now later : ℕ) (w : Wait) (ws : List Wait)
    → All (λ v. v.timeout ≤ now) (w ∷ ws)
    → p.can_always_login ≡ false
    → p.is_account_manager ≡ false
    → s.premium_skip_wait ≡ false
    → s.online < s.max
    → ((login p s now later (w ∷ ws)).0 ≡ false)
      × ((login p s now later (w ∷ ws)).1 ≡ new_wait p (later + get_timeout 1 * 1000) ∷ [])
      × (get_slot p (login p s now later (w ∷ ws)).1 ≡ some 1)
unfolding get_slot
login_stale p s now later w ws a h0 h1 h2 room =
    login_cases
      (λ r.
        (r.0 ≡ false)
        × (r.1 ≡ new_wait p (later + get_timeout 1 * 1000) ∷ [])
        × (find p.ip p.name 1 r.1 ≡ some 1))
      p s now later (w ∷ ws) (λ e. absurd (unfold passes in ground (arith, e, h0, h1, h2)))
      (λ _ _. (refl, rw empty only, rw empty alone)) (λ slot _ f _. absurd (nobody slot f))
      (λ slot _ f _. absurd (nobody slot f))
  where
    empty : cleanup now (w ∷ ws) ≡ []
    empty = cleanup-nil now (w ∷ ws) a

    alone : find p.ip p.name 1 (enqueue p later []) ≡ some 1
    alone =
        get_slot-enqueue p later [] (record { distinct = tt; ordered = tt }) (unfold find in refl)
        ∙ unfold count_premium in ground arith

    only : enqueue p later [] ≡ new_wait p (later + get_timeout 1 * 1000) ∷ []
    only = unfold enqueue insert_premium premium_slot in ground arith

    nobody : (slot : ℕ) → find p.ip p.name 1 (cleanup now (w ∷ ws)) ≡ some slot → ⊥
    nobody slot f = unfold find in cc (rw empty at f)
