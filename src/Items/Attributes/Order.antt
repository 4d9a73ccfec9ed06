-- ===== src/Items/Attributes/Order.antt =====
-- The keys of an attribute map stay in order, and what is found in it after each operation of
-- src/itemattributes.cpp.
use model_lib.Prelude.{
  ℕ, ◌≡◌, refl, ap, ap₂, sym, ◌∙◌, subst, true, false, ◌==◌, if◌then◌else◌, none, some, List, [],
  ◌∷◌, arith, Bool-cases, inl, inr,
}
use model_lib.Prelude.All.{All}
use model_lib.Items.Attributes.{
  ItemAttribute, AttributeMap, Attributes, string_lt, string_eq, find, put, remove,
  create_attributes, set_attribute, find_attribute,
}

pub string_eq_refl : (a : List ℕ) → string_eq a a ≡ true
unfolding string_eq
string_eq_refl [] = refl
string_eq_refl (x ∷ xs) = ground (arith, string_eq_refl xs)

pub eq_of_string_eq : (a b : List ℕ) → string_eq a b ≡ true → a ≡ b
unfolding string_eq
eq_of_string_eq [] [] h = refl
eq_of_string_eq [] (y ∷ ys) h = cc
eq_of_string_eq (x ∷ xs) [] h = cc
eq_of_string_eq (x ∷ xs) (y ∷ ys) h =
    let head : x ≡ y = ground (arith, h) in
    let tail = eq_of_string_eq xs ys (ground (arith, h)) in ap₂ (◌∷◌) head tail

pub string_lt_irrefl : (a : List ℕ) → string_lt a a ≡ false
unfolding string_lt
string_lt_irrefl [] = refl
string_lt_irrefl (x ∷ xs) = ground (arith, string_lt_irrefl xs)

pub string_lt_trans :
    (a b c : List ℕ) → string_lt a b ≡ true → string_lt b c ≡ true → string_lt a c ≡ true
unfolding string_lt
string_lt_trans [] [] c h k = cc
string_lt_trans [] (y ∷ ys) [] h k = cc
string_lt_trans [] (y ∷ ys) (z ∷ zs) h k = refl
string_lt_trans (x ∷ xs) [] c h k = cc
string_lt_trans (x ∷ xs) (y ∷ ys) [] h k = cc
string_lt_trans (x ∷ xs) (y ∷ ys) (z ∷ zs) h k = elim (Bool-cases (x == y)) [
  | inl e ↦ elim (Bool-cases (y == z)) [
    | inl f ↦
        let rest = string_lt_trans xs ys zs (ground (arith, h, e)) (ground (arith, k, f)) in
        ground (arith, h, k, e, f, rest)
    | inr f ↦ ground (arith, h, k, e, f)
  ]
  | inr e ↦ ground (arith, h, k, e)
]

-- Of two strings one is below the other, or they are the same.
pub eq_of_not_lt : (a b : List ℕ) → string_lt a b ≡ false → string_lt b a ≡ false → a ≡ b
unfolding string_lt
eq_of_not_lt [] [] h k = refl
eq_of_not_lt [] (y ∷ ys) h k = cc
eq_of_not_lt (x ∷ xs) [] h k = cc
eq_of_not_lt (x ∷ xs) (y ∷ ys) h k =
    let head : x ≡ y = ground (arith, h, k) in
    let tail = eq_of_not_lt xs ys (ground (arith, h, k, head)) (ground (arith, h, k, head)) in
    ap₂ (◌∷◌) head tail

pub lt_not_eq : (a b : List ℕ) → string_lt a b ≡ true → string_eq a b ≡ false
lt_not_eq a b h = elim (Bool-cases (string_eq a b)) [
  | inr e ↦ e
  | inl e ↦
      let same = eq_of_string_eq a b e in
      cc (sym h ∙ ap (string_lt a) (sym same) ∙ string_lt_irrefl a)
]

pub string_eq_sym : (a b : List ℕ) → string_eq a b ≡ string_eq b a
unfolding string_eq
string_eq_sym [] [] = refl
string_eq_sym [] (y ∷ ys) = refl
string_eq_sym (x ∷ xs) [] = refl
string_eq_sym (x ∷ xs) (y ∷ ys) = ground (arith, string_eq_sym xs ys)

-- Every key of a map is above a string.
abbrev pub IsAbove : List ℕ → AttributeMap → Type 0
IsAbove k m = All (λ e. string_lt k e.0 ≡ true) m

abbrev pub IsSorted : AttributeMap → Type 0
IsSorted [] = Unit
IsSorted ((k, v) ∷ m) = IsAbove k m × IsSorted m

pub IsAbove-trans :
    (j k : List ℕ) (m : AttributeMap) → string_lt j k ≡ true → IsAbove k m → IsAbove j m
IsAbove-trans j k [] h a = tt
IsAbove-trans j k ((i, v) ∷ m) h (a, b) = (string_lt_trans j k i h a, IsAbove-trans j k m h b)

-- A key that all are above is not found.
pub find-IsAbove : (k : List ℕ) (m : AttributeMap) → IsAbove k m → find k m ≡ none
unfolding find
find-IsAbove k [] a = refl
find-IsAbove k ((j, v) ∷ m) (a, b) = rw (string_eq_sym j k, lt_not_eq k j a) (find-IsAbove k m b)

put-IsAbove :
    (j k : List ℕ) (v : ItemAttribute) (m : AttributeMap)
    → string_lt j k ≡ true
    → IsAbove j m
    → IsAbove j (put k v m)
unfolding put
put-IsAbove j k v [] h a = (h, tt)
put-IsAbove j k v ((i, w) ∷ m) h (a, b) = elim (Bool-cases (string_lt i k)) [
  | inl e ↦ rw e (a, put-IsAbove j k v m h b)
  | inr e ↦ elim (Bool-cases (string_lt k i)) [
    | inl f ↦ rw (e, f) (h, (a, b))
    | inr f ↦ rw (e, f) (h, b)
  ]
]

pub put-IsSorted :
    (k : List ℕ) (v : ItemAttribute) (m : AttributeMap) → IsSorted m → IsSorted (put k v m)
unfolding put
put-IsSorted k v [] s = (tt, tt)
put-IsSorted k v ((i, w) ∷ m) (a, b) = elim (Bool-cases (string_lt i k)) [
  | inl e ↦ rw e (put-IsAbove i k v m e a, put-IsSorted k v m b)
  | inr e ↦ elim (Bool-cases (string_lt k i)) [
    | inl f ↦ rw (e, f) ((f, IsAbove-trans k i m f a), (a, b))
    | inr f ↦ let same = eq_of_not_lt i k e f in rw (e, f) (subst (λ x. IsAbove x m) same a, b)
  ]
]

pub find-put :
    (j k : List ℕ) (v : ItemAttribute) (m : AttributeMap)
    → find j (put k v m) ≡ (if string_eq k j then some v else find j m)
unfolding find put
find-put j k v [] = refl
find-put j k v ((i, w) ∷ m) = elim (Bool-cases (string_lt i k)) [
  | inl e ↦
      let rest = find-put j k v m in
      elim (Bool-cases (string_eq i j)) [
        | inl f ↦
            let same = eq_of_string_eq i j f in
            let distinct : string_eq k j ≡ false =
              string_eq_sym k j ∙ ap (λ x. string_eq x k) (sym same) ∙ lt_not_eq i k e in
            rw (e, f, distinct) refl
        | inr f ↦ rw (e, f) rest
      ]
  | inr e ↦ elim (Bool-cases (string_lt k i)) [
    | inl f ↦ rw (e, f) refl
    | inr f ↦ let same = eq_of_not_lt i k e f in rw (e, f, same) (ground arith)
  ]
]

remove-IsAbove : (j k : List ℕ) (m : AttributeMap) → IsAbove j m → IsAbove j (remove k m)
unfolding remove
remove-IsAbove j k [] a = tt
remove-IsAbove j k ((i, w) ∷ m) (a, b) = elim (Bool-cases (string_eq i k)) [
  | inl e ↦ rw e b
  | inr e ↦ rw e (a, remove-IsAbove j k m b)
]

pub remove-IsSorted : (k : List ℕ) (m : AttributeMap) → IsSorted m → IsSorted (remove k m)
unfolding remove
remove-IsSorted k [] s = tt
remove-IsSorted k ((i, w) ∷ m) (a, b) = elim (Bool-cases (string_eq i k)) [
  | inl e ↦ rw e b
  | inr e ↦ rw e (remove-IsAbove i k m a, remove-IsSorted k m b)
]

pub find-remove :
    (j k : List ℕ) (m : AttributeMap)
    → IsSorted m
    → find j (remove k m) ≡ (if string_eq k j then none else find j m)
unfolding find remove
find-remove j k [] s = ground arith
find-remove j k ((i, w) ∷ m) (a, b) = elim (Bool-cases (string_eq i k)) [
  | inl e ↦
      let same = eq_of_string_eq i k e in
      elim (Bool-cases (string_eq k j)) [
        | inl f ↦
            let there = same ∙ eq_of_string_eq k j f in
            rw (e, f) (find-IsAbove j m (subst (λ x. IsAbove x m) there a))
        | inr f ↦
            let distinct : string_eq i j ≡ false = ap (λ x. string_eq x j) same ∙ f in
            rw (e, f, distinct) refl
      ]
  | inr e ↦ elim (Bool-cases (string_eq i j)) [
    | inl f ↦
        let there = eq_of_string_eq i j f in
        let distinct : string_eq k j ≡ false =
          ap (string_eq k) (sym there) ∙ string_eq_sym k i ∙ e in
        rw (e, f, distinct) refl
    | inr f ↦ rw (e, f) (find-remove j k m b)
  ]
]

-- The keys of the attributes are in order, where there are any.
abbrev pub IsOrdered : Attributes → Type 0
IsOrdered none = Unit
IsOrdered (some m) = IsSorted m

pub create-IsSorted : (a : Attributes) → IsOrdered a → IsSorted (create_attributes a)
unfolding create_attributes
create-IsSorted none s = tt
create-IsSorted (some m) s = s

pub find-create : (k : List ℕ) (a : Attributes) → find k (create_attributes a) ≡ find_attribute k a
unfolding find create_attributes find_attribute
find-create k none = refl
find-create k (some m) = refl

pub find_attribute-set_attribute :
    (j k : List ℕ) (v : ItemAttribute) (a : Attributes)
    → find_attribute j (set_attribute k v a)
      ≡ (if string_eq k j then some v else find_attribute j a)
unfolding set_attribute find_attribute
find_attribute-set_attribute j k v a =
    find-put j k v (create_attributes a)
    ∙ ap (λ r. if string_eq k j then some v else r) (find-create j a)

pub set_attribute-IsOrdered :
    (k : List ℕ) (v : ItemAttribute) (a : Attributes)
    → IsOrdered a
    → IsOrdered (set_attribute k v a)
unfolding set_attribute
set_attribute-IsOrdered k v a s = put-IsSorted k v (create_attributes a) (create-IsSorted a s)
