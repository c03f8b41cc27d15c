-- ===== src/Tools/Shell/Allowed.antt =====
-- Which commands the allowlist of crates/roos-tools/src/shell.rs lets through.
use roos.Base.{
  ℕ, ◌<◌, ◌≡◌, ◌∙◌, zero, suc, subst, sym, refl, ap, arith, any, text_eq, All, if◌then◌else◌, Text,
  List, [], ◌∷◌, ◌++◌, Result, ok, err,
}
use roos.Base.Action.{Action}
use roos.Core.Tool.{not_allowed}
use roos.Tools.Shell.{
  width, skip_space, word, first_token, is_allowed, tool_name, collected, execute,
}

-- Printable ASCII without the space.
abbrev pub IsVisible : ℕ → Type 0
IsVisible b = (32 < b) × (b < 127)

width-IsVisible : (a : ℕ) (s : Text) → IsVisible a → width (a ∷ s) ≡ 0
unfolding width
width-IsVisible a [] h = ground (arith, h.0, h.1)
width-IsVisible a (b ∷ []) h = ground (arith, h.0, h.1)
width-IsVisible a (b ∷ c ∷ s) h = ground (arith, h.0, h.1)

width_space : (more : Text) → width (32 ∷ more) ≡ 1
unfolding width
width_space [] = refl
width_space (b ∷ []) = refl
width_space (b ∷ c ∷ s) = refl

skip_visible : (a : ℕ) (s : Text) → width (a ∷ s) ≡ 0 → skip_space 0 (a ∷ s) ≡ a ∷ s
unfolding skip_space
skip_visible a s h =
    subst (λ n. elim n [ zero ↦ a ∷ s | suc m ↦ skip_space m s ] ≡ a ∷ s) (sym h) refl

word_lem : (t more : Text) → All IsVisible t → word (t ++ (32 ∷ more)) ≡ t
unfolding word
word_lem [] more h = rw (width_space more) refl
word_lem (a ∷ t) more h =
    rw (width-IsVisible a (t ++ (32 ∷ more)) h.0) (ap (λ s. a ∷ s) (word_lem t more h.1))

first_token_lem :
    (a : ℕ) (t more : Text) → All IsVisible (a ∷ t) → first_token ((a ∷ t) ++ (32 ∷ more)) ≡ a ∷ t
unfolding first_token
first_token_lem a t more h =
    ap word (skip_visible a (t ++ (32 ∷ more)) (width-IsVisible a (t ++ (32 ∷ more)) h.0))
    ∙ word_lem (a ∷ t) more h

is_allowed_lem :
    (entry : Text) (entries : List Text) (a : ℕ) (t more : Text)
    → All IsVisible (a ∷ t)
    → is_allowed (entry ∷ entries) ((a ∷ t) ++ (32 ∷ more))
      ≡ any (λ allowed. text_eq allowed (a ∷ t)) (entry ∷ entries)
unfolding is_allowed
is_allowed_lem entry entries a t more h =
    ap (λ token. any (λ allowed. text_eq allowed token) (entry ∷ entries))
      (first_token_lem a t more h)

-- With an allowlist, a command that begins with a visible word and a space is run as a whole, if the
-- word is on the list, whatever follows the space, such as `;` and a second command. If the
-- word is not on the list, nothing is run.
pub execute-first_token :
    {W J : Type 0} (run : Text → Action W Text (Text × Text)) (from_value : J → Result Text Text)
    (entry : Text) (entries : List Text) (input : J) (a : ℕ) (t more : Text) (w : W)
    → All IsVisible (a ∷ t)
    → from_value input ≡ ok ((a ∷ t) ++ (32 ∷ more))
    → execute run from_value (entry ∷ entries) input w ≡ (
        if any (λ allowed. text_eq allowed (a ∷ t)) (entry ∷ entries)
        then collected run (run ((a ∷ t) ++ (32 ∷ more)) w)
        else (err (not_allowed tool_name), w))
unfolding execute
execute-first_token run from_value entry entries input a t more w h read =
    rw (read, is_allowed_lem entry entries a t more h) refl
