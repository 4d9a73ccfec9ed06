-- ===== src/Chat/Slots.antt =====
-- How src/chat.cpp finds a channel, or a free number for one.
use model_lib.Prelude.{
  ℕ, zero, suc, ◌+◌, ◌≤◌, ◌<◌, ◌≡◌, ap, sym, ◌∙◌, Bool, true, false, ◌==◌, Option, none, some,
  arith, Bool-cases, inl, inr,
}
use model_lib.Chat.{Channel, Channels, first, is_owned, get_private_channel}

pub first-some :
    (f : ℕ → Bool) (i n k : ℕ) → first f i n ≡ some k → (f k ≡ true) × (i ≤ k) × (k < i + n)
unfolding first
first-some f i zero k h = ground (arith, h)
first-some f i (suc n) k h = elim (Bool-cases (f i)) [
  | inl e ↦ let eq : i ≡ k = ground (arith, h, e) in (ap f (sym eq) ∙ e, omega arith, omega arith)
  | inr e ↦
      let (x, y, z) = first-some f (suc i) n k (ground (arith, h, e)) in
      (x, omega arith, omega arith)
]

pub first-none : (f : ℕ → Bool) (i n k : ℕ) → first f i n ≡ none → i ≤ k → k < i + n → f k ≡ false
unfolding first
first-none f i zero k h x y = ground (arith, x, y)
first-none f i (suc n) k h x y = elim (Bool-cases (k == i)) [
  | inl e ↦ let eq : k ≡ i = ground (arith, e) in ap f eq ∙ ground (arith, h)
  | inr e ↦ first-none f (suc i) n k (ground (arith, h)) (ground (arith, e, x)) (ground (arith, y))
]

-- A player to whom no channel is found owns none of those with a 16-bit number.
pub get_private_channel-none :
    (p : ℕ) (s : Channels) (i : ℕ) (c : Channel)
    → get_private_channel p s ≡ none
    → i < 65536
    → s i ≡ some c
    → c.owner == p ≡ false
unfolding get_private_channel is_owned
get_private_channel-none p s i c h b e =
    let nobody = first-none (is_owned p s) 0 65536 i h (omega arith) b in owned (s i) e nobody
  where
    owned :
        (o : Option Channel)
        → o ≡ some c
        → elim o as (λ x. Bool) [ none ↦ false | some d ↦ d.owner == p ] ≡ false
        → c.owner == p ≡ false
    owned none e nobody = ground (arith, e)
    owned (some d) e nobody = let eq : d ≡ c = cc e in ap (λ x. x.owner == p) (sym eq) ∙ nobody
