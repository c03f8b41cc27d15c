-- ===== src/Cli/ListAgents/Columns.antt =====
-- The columns of the table that crates/roos-cli/src/cmd/list.rs prints.
use roos.Base.{
  ℕ, zero, suc, ◌+◌, ◌-◌, ◌≤◌, ◌≡◌, refl, sym, ap, ◌∙◌, arith, Text, append_assoc, [], ◌∷◌, ◌++◌,
}
use roos.Cli.ListAgents.{char_count, spaces, padded, row}

char_count-append : (s t : Text) → char_count (s ++ t) ≡ char_count s + char_count t
unfolding char_count
char_count-append [] t = omega arith
char_count-append (b ∷ s) t = ground (arith, char_count-append s t)

char_count-spaces : (n : ℕ) → char_count (spaces n) ≡ n
unfolding char_count spaces
char_count-spaces zero = refl
char_count-spaces (suc n) = ground (arith, char_count-spaces n)

char_count-padded : (n : ℕ) (s : Text) → char_count s ≤ n → char_count (padded n s) ≡ n
unfolding padded
char_count-padded n s h =
    char_count-append s (spaces (n - char_count s))
    ∙ omega (arith, h, char_count-spaces (n - char_count s))

char_count-space : (s : Text) → char_count (32 ∷ s) ≡ suc (char_count s)
unfolding char_count
char_count-space s = ground arith

-- In the table, the model of an agent stands behind 85 characters, as in the head of the table, if the
-- name, the description and the provider fit their columns of 30, 40 and 12 characters.
row-aligned :
    (name description provider model : Text)
    → char_count name ≤ 30
    → char_count description ≤ 40
    → char_count provider ≤ 12
    → (front : Text) × (row name description provider model ≡ front ++ model)
      × (char_count front ≡ 85)
unfolding row
row-aligned name description provider model h k l =
    let third = padded 12 provider ++ (32 ∷ []) in
    let second = padded 40 description ++ (32 ∷ third) in
    let third_count : char_count third ≡ 13 =
      char_count-append (padded 12 provider) (32 ∷ [])
      ∙ omega (arith, char_count-padded 12 provider l, char_count-space []) in
    let second_count : char_count second ≡ 54 =
      char_count-append (padded 40 description) (32 ∷ third)
      ∙ omega (arith, char_count-padded 40 description k, char_count-space third, third_count) in
    (
      padded 30 name ++ (32 ∷ second),
      sym (
          append_assoc (padded 30 name) (32 ∷ second) model
          ∙ ap (λ t. padded 30 name ++ (32 ∷ t))
              (append_assoc (padded 40 description) (32 ∷ third) model
                ∙ ap (λ t. padded 40 description ++ (32 ∷ t))
                    (append_assoc (padded 12 provider) (32 ∷ []) model))),
      char_count-append (padded 30 name) (32 ∷ second)
          ∙ omega (arith, char_count-padded 30 name h, char_count-space second, second_count),
    )
