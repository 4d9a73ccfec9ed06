-- ===== src/Files/Nodes/Parse.antt =====
-- `parseNode` of src/fileloader.cpp ends on every file.
use model_lib.Prelude.{ℕ, ◌<◌, Option, List, length}
use model_lib.Files.Nodes.{NodeStruct, Outcome, exhausted, too_long, failed, parsed}

-- The fuel has sufficed, and something has been read.
abbrev pub Returns : Outcome → ℕ → Type 0
Returns exhausted n = ⊥
Returns too_long n = ⊥
Returns (failed e) n = Unit
Returns (parsed t pos rest) n = length rest < n

-- A loop that is sure to return on inputs shorter than `n`.
abbrev Sure : ℕ → (ℕ → ℕ → NodeStruct → Option ℕ → ℕ → List ℕ → Outcome) → Type 0
Sure n loop =
    (start type : ℕ) (child : NodeStruct) (size : Option ℕ) (pos : ℕ) (rest : List ℕ)
    → length rest < n
    → Returns (loop start type child size pos rest) (length rest)
