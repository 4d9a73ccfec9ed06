-- ===== src/Chat/Tests.antt =====
-- Examples for private channels.
use model_lib.Prelude.{◌≡◌, refl, List, true, some, none, [], ◌∷◌}
use model_lib.Prelude.Pointers.{contains, erase}
use model_lib.Chat.{Channels, Command, create_private, join, invite, exclude, put, run}
use model_lib.Chat.Private.{IsPrivate}
use model_lib.Chat.Creating.{run_new-IsPrivate}

abbrev commands : List Command
commands =
    create_private 7 true ∷ join 7 100 ∷ invite 7 8 ∷ join 8 100 ∷ join 9 100 ∷ exclude 7 8 ∷ []

-- Player 8 has been let in, and goes when he is excluded; player 9 is not let in.
abbrev lively : Channels
lively = put 3 (some (record { owner = 7; invites = 8 ∷ []; users = 7 ∷ [] })) (λ i. none)

let_in :
    run (join 8 3 ∷ join 9 3 ∷ []) lively 3
    ≡ some (record { owner = 7; invites = 8 ∷ []; users = 8 ∷ 7 ∷ [] })
unfolding run put contains
let_in = refl

sent_off :
    run (join 8 3 ∷ exclude 7 8 ∷ []) lively 3
    ≡ some (record { owner = 7; invites = []; users = 7 ∷ [] })
unfolding run put contains erase
sent_off = refl

run_new-IsPrivate_example : IsPrivate (run commands (λ i. none))
run_new-IsPrivate_example = run_new-IsPrivate commands
