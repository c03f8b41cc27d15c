-- ===== src/Examples/Expansions.antt =====
-- The attribute on a function with two parameters, with names that are replaced.
use roos.Base.{ℕ, Text, codes, none, some, List, [], ◌∷◌}
use roos.Macros.{MetaNameValue, ident, receiver, ItemFn}

abbrev given : Text → Text → MetaNameValue
given key value = record { path = some key; value = some value }

abbrev arguments : List MetaNameValue
arguments =
    given (codes "name") (codes "echo")
    ∷ given (codes "description") (codes "Echoes.")
    ∷ record { path = some (codes "name"); value = none }
    ∷ given (codes "name") (codes "say")
    ∷ []

-- A type is a number.
abbrev echo : ItemFn ℕ
echo = record { name = codes "echo_it"; inputs = ident 1 ∷ receiver ∷ [] }
