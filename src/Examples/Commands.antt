-- ===== src/Examples/Commands.antt =====
-- A command behind an allowed word.
use roos.Base.{ℕ, suc, ◌≡◌, refl, arith, text_eq, Text, codes, [], ◌∷◌, ◌++◌, ok}
use roos.Base.Action.{Action}
use roos.Tools.Shell.{execute}
use roos.Tools.Shell.Allowed.{execute-first_token}

-- It prints the command, and the world counts the runs.
abbrev printed : Text → Action ℕ Text (Text × Text)
printed command w = (ok (command, []), suc w)

execute-first_token_example :
    execute printed ok (codes "echo" ∷ []) (codes "echo" ++ (32 ∷ codes "a; rm b")) 0
    ≡ (ok ((codes "echo" ++ (32 ∷ codes "a; rm b")) ++ []), 1)
unfolding codes text_eq
execute-first_token_example =
    execute-first_token printed ok (codes "echo") [] (codes "echo" ++ (32 ∷ codes "a; rm b")) 101
      (codes "cho") (codes "a; rm b") 0
      (
        (omega arith, omega arith),
        (
          (omega arith, omega arith),
          ((omega arith, omega arith), ((omega arith, omega arith), tt)),
        ),
      )
      refl
