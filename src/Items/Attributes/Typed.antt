-- ===== src/Items/Attributes/Typed.antt =====
-- What is set in the attributes of an item (src/itemattributes.cpp) is read as what it was set as.
use model_lib.Prelude.{
  ℕ, ◌≡◌, refl, ap, ◌∙◌, Bool, false, if◌then◌else◌, Option, none, some, ◌>>=◌, List, arith,
}
use model_lib.Items.Attributes.{
  ItemAttribute, Attributes, Any, empty, other, any_string, any_integer, any_float, any_boolean,
  of_any, to_any, string_eq, set_attribute, erase_attribute, find_attribute, get_string,
  get_integer, get_float, get_boolean, get_string_attribute, get_integer_attribute,
  get_float_attribute, get_boolean_attribute, set_any, get_any,
}
use model_lib.Items.Attributes.Order.{
  IsOrdered, set_attribute-IsOrdered, remove-IsSorted, find-remove, find_attribute-set_attribute,
  string_eq_refl,
}

-- What the getters return of a key: the value, and what is there of each type.
pub record Gives (k : List ℕ) (a : Attributes) (x : Any) (s : Option (List ℕ)) (i f : Option ℕ)
    (b : Option Bool) : Type 0 where
  pub any : get_any k a ≡ x
  pub of_string : get_string_attribute k a ≡ s
  pub of_integer : get_integer_attribute k a ≡ i
  pub of_float : get_float_attribute k a ≡ f
  pub of_boolean : get_boolean_attribute k a ≡ b

-- The value under a key is read by the getter of its type, and by no other one.
abbrev pub Holds : List ℕ → Attributes → Any → Type 0
Holds k a empty = Gives k a empty none none none none
Holds k a other = Gives k a empty none none none none
Holds k a (any_string s) = Gives k a (any_string s) (some s) none none none
Holds k a (any_integer i) = Gives k a (any_integer i) none (some i) none none
Holds k a (any_float f) = Gives k a (any_float f) none none (some f) none
Holds k a (any_boolean b) = Gives k a (any_boolean b) none none none (some b)

found-Gives :
    (k : List ℕ) (a : Attributes) (o : Option ItemAttribute)
    → find_attribute k a ≡ o
    → Gives k a
        (elim o [ none ↦ empty | some v ↦ to_any v ])
        (o >>= get_string)
        (o >>= get_integer)
        (o >>= get_float)
        (o >>= get_boolean)
unfolding get_any get_string_attribute get_integer_attribute get_float_attribute
    get_boolean_attribute
found-Gives k a o e = record {
  any =
      ap (λ (r : Option ItemAttribute). elim r as (λ r. Any) [ none ↦ empty | some v ↦ to_any v ])
        e;
  of_string = ap (λ r. r >>= get_string) e;
  of_integer = ap (λ r. r >>= get_integer) e;
  of_float = ap (λ r. r >>= get_float) e;
  of_boolean = ap (λ r. r >>= get_boolean) e;
}

found-Holds :
    (k : List ℕ) (a : Attributes) (x : Any) → find_attribute k a ≡ some (of_any x) → Holds k a x
unfolding of_any to_any get_string get_integer get_float get_boolean
found-Holds k a empty e = found-Gives k a _ e
found-Holds k a other e = found-Gives k a _ e
found-Holds k a (any_string s) e = found-Gives k a _ e
found-Holds k a (any_integer i) e = found-Gives k a _ e
found-Holds k a (any_float f) e = found-Gives k a _ e
found-Holds k a (any_boolean b) e = found-Gives k a _ e

-- A key whose entry does not change is read as before.
kept-Gives :
    (j : List ℕ) (a b : Attributes)
    → find_attribute j b ≡ find_attribute j a
    → Gives j b
        (get_any j a)
        (get_string_attribute j a)
        (get_integer_attribute j a)
        (get_float_attribute j a)
        (get_boolean_attribute j a)
unfolding get_any get_string_attribute get_integer_attribute get_float_attribute
    get_boolean_attribute
kept-Gives j a b e = found-Gives j b (find_attribute j a) e

-- What is set under a key is read back by the getter of its type, and by no other one, a value of a
-- foreign type is not there for any of them, and what is under other keys is read as before. The keys
-- stay in order.
pub set_any-Holds :
    (k : List ℕ) (x : Any) (a : Attributes)
    → IsOrdered a
    → IsOrdered (set_any k x a)
      × Holds k (set_any k x a) x
      × ((j : List ℕ)
          → string_eq k j ≡ false
          → Gives j
              (set_any k x a)
              (get_any j a)
              (get_string_attribute j a)
              (get_integer_attribute j a)
              (get_float_attribute j a)
              (get_boolean_attribute j a))
unfolding set_any
set_any-Holds k x a s = (
  set_attribute-IsOrdered k (of_any x) a s,
  found-Holds k (set_attribute k (of_any x) a) x
      (find_attribute-set_attribute k k (of_any x) a ∙ rw (string_eq_refl k) refl),
  λ j e.
      kept-Gives j a (set_attribute k (of_any x) a)
        (find_attribute-set_attribute j k (of_any x) a ∙ rw e refl),
)

find-erase_attribute :
    (j k : List ℕ) (a : Attributes)
    → IsOrdered a
    → find_attribute j (erase_attribute k a) ≡ (if string_eq k j then none else find_attribute j a)
unfolding erase_attribute find_attribute
find-erase_attribute j k none s = ground arith
find-erase_attribute j k (some m) s = find-remove j k m s

erase-IsOrdered : (k : List ℕ) (a : Attributes) → IsOrdered a → IsOrdered (erase_attribute k a)
unfolding erase_attribute
erase-IsOrdered k none s = tt
erase-IsOrdered k (some m) s = remove-IsSorted k m s

-- What is erased is there for no getter, and what is under other keys is read as before. The keys stay
-- in order.
erase_attribute-Holds :
    (k : List ℕ) (a : Attributes)
    → IsOrdered a
    → IsOrdered (erase_attribute k a)
      × Holds k (erase_attribute k a) empty
      × ((j : List ℕ)
          → string_eq k j ≡ false
          → Gives j
              (erase_attribute k a)
              (get_any j a)
              (get_string_attribute j a)
              (get_integer_attribute j a)
              (get_float_attribute j a)
              (get_boolean_attribute j a))
erase_attribute-Holds k a s = (
  erase-IsOrdered k a s,
  found-Gives k (erase_attribute k a) none
      (find-erase_attribute k k a s ∙ rw (string_eq_refl k) refl),
  λ j e. kept-Gives j a (erase_attribute k a) (find-erase_attribute j k a s ∙ rw e refl),
)
