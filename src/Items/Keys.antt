-- ===== src/Items/Keys.antt =====
-- The names of the attributes that src/item.cpp and item.h use, as bytes.
use model_lib.Prelude.{ℕ, List, [], ◌∷◌}

abbrev pub key_aid : List ℕ
key_aid = b'a' ∷ b'i' ∷ b'd' ∷ []

abbrev pub key_uid : List ℕ
key_uid = b'u' ∷ b'i' ∷ b'd' ∷ []

abbrev pub key_name : List ℕ
key_name = b'n' ∷ b'a' ∷ b'm' ∷ b'e' ∷ []

abbrev pub key_pluralname : List ℕ
key_pluralname = b'p' ∷ b'l' ∷ b'u' ∷ b'r' ∷ b'a' ∷ b'l' ∷ b'n' ∷ b'a' ∷ b'm' ∷ b'e' ∷ []

abbrev pub key_article : List ℕ
key_article = b'a' ∷ b'r' ∷ b't' ∷ b'i' ∷ b'c' ∷ b'l' ∷ b'e' ∷ []

abbrev pub key_attack : List ℕ
key_attack = b'a' ∷ b't' ∷ b't' ∷ b'a' ∷ b'c' ∷ b'k' ∷ []

abbrev pub key_extraattack : List ℕ
key_extraattack = b'e' ∷ b'x' ∷ b't' ∷ b'r' ∷ b'a' ∷ b'a' ∷ b't' ∷ b't' ∷ b'a' ∷ b'c' ∷ b'k' ∷ []

abbrev pub key_defense : List ℕ
key_defense = b'd' ∷ b'e' ∷ b'f' ∷ b'e' ∷ b'n' ∷ b's' ∷ b'e' ∷ []

abbrev pub key_extradefense : List ℕ
key_extradefense =
    b'e' ∷ b'x' ∷ b't' ∷ b'r' ∷ b'a' ∷ b'd' ∷ b'e' ∷ b'f' ∷ b'e' ∷ b'n' ∷ b's' ∷ b'e' ∷ []

abbrev pub key_armor : List ℕ
key_armor = b'a' ∷ b'r' ∷ b'm' ∷ b'o' ∷ b'r' ∷ []

abbrev pub key_attackspeed : List ℕ
key_attackspeed = b'a' ∷ b't' ∷ b't' ∷ b'a' ∷ b'c' ∷ b'k' ∷ b's' ∷ b'p' ∷ b'e' ∷ b'e' ∷ b'd' ∷ []

abbrev pub key_hitchance : List ℕ
key_hitchance = b'h' ∷ b'i' ∷ b't' ∷ b'c' ∷ b'h' ∷ b'a' ∷ b'n' ∷ b'c' ∷ b'e' ∷ []

abbrev pub key_scriptprotected : List ℕ
key_scriptprotected =
    b's' ∷ b'c' ∷ b'r' ∷ b'i' ∷ b'p' ∷ b't' ∷ b'p' ∷ b'r' ∷ b'o' ∷ b't' ∷ b'e' ∷ b'c' ∷ b't' ∷ b'e'
    ∷ b'd' ∷ []

abbrev pub key_dualwield : List ℕ
key_dualwield = b'd' ∷ b'u' ∷ b'a' ∷ b'l' ∷ b'w' ∷ b'i' ∷ b'e' ∷ b'l' ∷ b'd' ∷ []

abbrev pub key_text : List ℕ
key_text = b't' ∷ b'e' ∷ b'x' ∷ b't' ∷ []

abbrev pub key_date : List ℕ
key_date = b'd' ∷ b'a' ∷ b't' ∷ b'e' ∷ []

abbrev pub key_writer : List ℕ
key_writer = b'w' ∷ b'r' ∷ b'i' ∷ b't' ∷ b'e' ∷ b'r' ∷ []

abbrev pub key_description : List ℕ
key_description = b'd' ∷ b'e' ∷ b's' ∷ b'c' ∷ b'r' ∷ b'i' ∷ b'p' ∷ b't' ∷ b'i' ∷ b'o' ∷ b'n' ∷ []

abbrev pub key_duration : List ℕ
key_duration = b'd' ∷ b'u' ∷ b'r' ∷ b'a' ∷ b't' ∷ b'i' ∷ b'o' ∷ b'n' ∷ []

abbrev pub key_decaying : List ℕ
key_decaying = b'd' ∷ b'e' ∷ b'c' ∷ b'a' ∷ b'y' ∷ b'i' ∷ b'n' ∷ b'g' ∷ []

abbrev pub key_charges : List ℕ
key_charges = b'c' ∷ b'h' ∷ b'a' ∷ b'r' ∷ b'g' ∷ b'e' ∷ b's' ∷ []

abbrev pub key_fluidtype : List ℕ
key_fluidtype = b'f' ∷ b'l' ∷ b'u' ∷ b'i' ∷ b'd' ∷ b't' ∷ b'y' ∷ b'p' ∷ b'e' ∷ []
