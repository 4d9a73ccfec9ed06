-- ===== src/Login/WaitList/Invariant.antt =====
-- The waiting list holds every player once, and the premium players before the others.
use model_lib.Prelude.{
  ℕ, ◌+◌, ◌-◌, ◌≡◌, refl, sym, ◌∙◌, Bool, true, false, ◌==◌, leb, ltb, ◌*◌, ◌%◌, none, some, List,
  [], ◌∷◌, ◌++◌, Bool-cases, Option-cases, inl, inr, arith,
}
use model_lib.Prelude.All.{All, All-append}
use model_lib.Prelude.Words.{u32_mod}
use model_lib.Login.WaitList.{
  Wait, Player, Server, as_lower_case_string, str_eq, is_entry, find, cleanup, insert_premium,
  set_timeout, erase, new_wait, enqueue, login, passes, get_timeout,
}

-- Two entries of one player.
abbrev pub Apart : Wait → Wait → Type 0
Apart v w = is_entry v.ip v.name w ≡ false

abbrev pub Distinct : List Wait → Type 0
Distinct [] = Unit {0}
Distinct (w ∷ ws) = All (Apart w) ws × Distinct ws

abbrev pub IsRegular : Wait → Type 0
IsRegular w = w.premium ≡ false

abbrev pub PremiumFirst : List Wait → Type 0
PremiumFirst [] = Unit {0}
PremiumFirst (w ∷ ws) = (w.premium ≡ false → All IsRegular ws) × PremiumFirst ws

pub record IsQueue (ws : List Wait) : Type 0 where
  pub distinct : Distinct ws
  pub ordered : PremiumFirst ws

str_eq_comm : (cs ds : List ℕ) → str_eq cs ds ≡ str_eq ds cs
unfolding str_eq
str_eq_comm [] [] = refl
str_eq_comm [] (d ∷ ds) = refl
str_eq_comm (c ∷ cs) [] = refl
str_eq_comm (c ∷ cs) (d ∷ ds) = ground (arith, str_eq_comm cs ds)

Apart-sym : (v w : Wait) → Apart v w → Apart w v
unfolding is_entry
Apart-sym v w h =
    ground (arith, str_eq_comm (as_lower_case_string w.name) (as_lower_case_string v.name))

module _ {ℓ} (P : Wait → Type ℓ) where
  cleanup-All : (now : ℕ) (ws : List Wait) → All P ws → All P (cleanup now ws)
  unfolding cleanup
  cleanup-All now [] h = tt
  cleanup-All now (w ∷ ws) h = elim (Bool-cases (leb w.timeout now)) [
    | inl e ↦ rw e (cleanup-All now ws h.1)
    | inr e ↦ rw e (h.0, cleanup-All now ws h.1)
  ]

  erase-All : (slot : ℕ) (ws : List Wait) → All P ws → All P (erase slot ws)
  unfolding erase
  erase-All slot [] h = tt
  erase-All slot (w ∷ ws) h = elim (Bool-cases (slot == 1)) [
    | inl e ↦ rw e (h.1)
    | inr e ↦ rw e (h.0, erase-All (slot - 1) ws h.1)
  ]

  set_timeout-All :
      ((w : Wait) (t : ℕ) → P w → P (record w { timeout = t }))
      → (slot t : ℕ) (ws : List Wait) → All P ws
      → All P (set_timeout slot t ws)
  unfolding set_timeout
  set_timeout-All keep slot t [] h = tt
  set_timeout-All keep slot t (w ∷ ws) h = elim (Bool-cases (slot == 1)) [
    | inl e ↦ rw e (keep w t h.0, h.1)
    | inr e ↦ rw e (h.0, set_timeout-All keep (slot - 1) t ws h.1)
  ]

  insert_premium-All : (v : Wait) (ws : List Wait) → P v → All P ws → All P (insert_premium v ws)
  unfolding insert_premium
  insert_premium-All v [] p h = (p, tt)
  insert_premium-All v (w ∷ ws) p h = elim (Bool-cases w.premium) [
    | inl e ↦ simp e (h.0, insert_premium-All v ws p h.1)
    | inr e ↦ simp e (p, h)
  ]

pub cleanup-IsQueue : (now : ℕ) (ws : List Wait) → IsQueue ws → IsQueue (cleanup now ws)
unfolding cleanup
cleanup-IsQueue now [] q = q
cleanup-IsQueue now (w ∷ ws) q =
    let rest = cleanup-IsQueue now ws (record { distinct = q.distinct.1; ordered = q.ordered.1 }) in
    elim (Bool-cases (leb w.timeout now)) [
      | inl e ↦ rw e rest
      | inr e ↦ rw e (record {
        distinct = (cleanup-All (Apart w) now ws q.distinct.0, rest.distinct);
        ordered = ((λ r. cleanup-All IsRegular now ws (q.ordered.0 r)), rest.ordered);
      })
    ]

erase-IsQueue : (slot : ℕ) (ws : List Wait) → IsQueue ws → IsQueue (erase slot ws)
unfolding erase
erase-IsQueue slot [] q = q
erase-IsQueue slot (w ∷ ws) q =
    let tail : IsQueue ws = record { distinct = q.distinct.1; ordered = q.ordered.1 } in
    let rest = erase-IsQueue (slot - 1) ws tail in
    elim (Bool-cases (slot == 1)) [
      | inl e ↦ rw e tail
      | inr e ↦ rw e (record {
        distinct = (erase-All (Apart w) (slot - 1) ws q.distinct.0, rest.distinct);
        ordered = ((λ r. erase-All IsRegular (slot - 1) ws (q.ordered.0 r)), rest.ordered);
      })
    ]

set_timeout-IsQueue : (slot t : ℕ) (ws : List Wait) → IsQueue ws → IsQueue (set_timeout slot t ws)
unfolding set_timeout is_entry
set_timeout-IsQueue slot t [] q = q
set_timeout-IsQueue slot t (w ∷ ws) q =
    let rest =
      set_timeout-IsQueue (slot - 1) t ws
        (record { distinct = q.distinct.1; ordered = q.ordered.1 }) in
    elim (Bool-cases (slot == 1)) [
      | inl e ↦ rw e (record { distinct = q.distinct; ordered = q.ordered })
      | inr e ↦ rw e (record {
        distinct =
            (set_timeout-All (Apart w) (λ v u h. h) (slot - 1) t ws q.distinct.0, rest.distinct);
        ordered = (
          (λ r. set_timeout-All IsRegular (λ v u h. h) (slot - 1) t ws (q.ordered.0 r)),
          rest.ordered,
        );
      })
    ]

-- Nobody in a list where the player is not found is the player.
pub find-none :
    (ip : ℕ) (name : List ℕ) (slot : ℕ) (ws : List Wait)
    → find ip name slot ws ≡ none
    → All (λ w. is_entry ip name w ≡ false) ws
unfolding find
find-none ip name slot [] h = tt
find-none ip name slot (w ∷ ws) h = elim (Bool-cases (is_entry ip name w)) [
  | inl e ↦ absurd (ground (arith, h, e))
  | inr e ↦ (e, find-none ip name (slot + 1) ws (ground (arith, h, e)))
]

All-sym : (v : Wait) (ws : List Wait) → All (Apart v) ws → All (λ w. Apart w v) ws
All-sym v [] h = tt
All-sym v (w ∷ ws) h = (Apart-sym v w h.0, All-sym v ws h.1)

insert_premium-IsQueue :
    (v : Wait) (ws : List Wait)
    → v.premium ≡ true
    → All (Apart v) ws
    → IsQueue ws
    → IsQueue (insert_premium v ws)
unfolding insert_premium
insert_premium-IsQueue v [] p a q = record { distinct = (tt, tt); ordered = ((λ r. tt), tt) }
insert_premium-IsQueue v (w ∷ ws) p a q =
    let rest =
      insert_premium-IsQueue v ws p a.1
        (record { distinct = q.distinct.1; ordered = q.ordered.1 }) in
    elim (Bool-cases w.premium) [
      | inl e ↦ simp e (record {
        distinct =
            (insert_premium-All (Apart w) v ws (Apart-sym v w a.0) q.distinct.0, rest.distinct);
        ordered = ((λ r. cc (sym e ∙ r)), rest.ordered);
      })
      | inr e ↦
          simp e
            (record { distinct = (a, q.distinct); ordered = ((λ r. cc (sym p ∙ r)), q.ordered) })
    ]

append-IsQueue :
    (v : Wait) (ws : List Wait)
    → v.premium ≡ false
    → All (λ w. Apart w v) ws
    → IsQueue ws
    → IsQueue (ws ++ v ∷ [])
append-IsQueue v [] r a q = record { distinct = (tt, tt); ordered = ((λ _. tt), tt) }
append-IsQueue v (w ∷ ws) r a q =
    let rest =
      append-IsQueue v ws r a.1 (record { distinct = q.distinct.1; ordered = q.ordered.1 }) in
    record {
      distinct = (All-append (Apart w) ws (v ∷ []) q.distinct.0 (a.0, tt), rest.distinct);
      ordered = ((λ x. All-append IsRegular ws (v ∷ []) (q.ordered.0 x) (r, tt)), rest.ordered);
    }

enqueue-IsQueue :
    (p : Player) (now : ℕ) (ws : List Wait)
    → All (λ w. is_entry p.ip p.name w ≡ false) ws
    → IsQueue ws
    → IsQueue (enqueue p now ws)
unfolding enqueue new_wait
enqueue-IsQueue p now ws a q = elim (Bool-cases p.is_premium) [
  | inl e ↦ simp e (insert_premium-IsQueue _ ws refl a q)
  | inr e ↦ simp e (append-IsQueue _ ws refl (All-sym _ ws a) q)
]

-- The ways through `login`.
module _ {ℓ} (P : Bool × List Wait → Type ℓ) (p : Player) (s : Server) (now later : ℕ)
    (all : List Wait) where
  pub login_cases :
      (passes p s all ≡ true → P (true, all))
      → (passes p s all ≡ false
          → find p.ip p.name 1 (cleanup now all) ≡ none
          → P (false, enqueue p later (cleanup now all)))
      → ((slot : ℕ)
          → passes p s all ≡ false
          → find p.ip p.name 1 (cleanup now all) ≡ some slot
          → ltb s.max ((s.online + slot) % u32_mod) ≡ true
          → P (false, set_timeout slot (later + get_timeout slot * 1000) (cleanup now all)))
      → ((slot : ℕ)
          → passes p s all ≡ false
          → find p.ip p.name 1 (cleanup now all) ≡ some slot
          → ltb s.max ((s.online + slot) % u32_mod) ≡ false
          → P (true, erase slot (cleanup now all)))
      → P (login p s now later all)
  unfolding login
  login_cases through fresh waits admitted = elim (Bool-cases (passes p s all)) [
    | inl e ↦ rw (e, login) (through e)
    | inr e ↦ elim (Option-cases (find p.ip p.name 1 (cleanup now all))) [
      | inl f ↦ rw (e, f, login) (fresh e f)
      | inr (slot, f) ↦ elim (Bool-cases (ltb s.max ((s.online + slot) % u32_mod))) [
        | inl t ↦ rw (e, f, login) (rw t (waits slot e f t))
        | inr t ↦ rw (e, f, login) (rw t (admitted slot e f t))
      ]
    ]
  ]

-- Whatever a login does, no player is in the list twice afterwards, by address and name in any
-- spelling, and no premium player stands behind one who is not, if so it was before.
pub login-IsQueue :
    (p : Player) (s : Server) (now later : ℕ) (ws : List Wait)
    → IsQueue ws
    → IsQueue (login p s now later ws).1
login-IsQueue p s now later ws q =
    login_cases (λ r. IsQueue r.1) p s now later ws (λ _. q)
      (λ _ f. enqueue-IsQueue p later _ (find-none p.ip p.name 1 _ f) (cleanup-IsQueue now ws q))
      (λ slot _ _ _. set_timeout-IsQueue slot _ _ (cleanup-IsQueue now ws q))
      (λ slot _ _ _. erase-IsQueue slot _ (cleanup-IsQueue now ws q))
