-- ===== src/Core/Config/Complete.antt =====
-- The interpolation of crates/roos-core/src/config.rs on whole texts: on every template, and that
-- every text is a template, closed or left open.
use roos.Base.{
  ℕ, zero, suc, ◌+◌, ◌≤◌, ◌≡◌, refl, ap, ◌∙◌, Text, codes, find, Option, none, some, List, [], ◌∷◌,
  ◌++◌, append_assoc, Result, ok, err, length, length-append, arith, All,
}
use roos.Core.Config.{
  ConfigError, malformed_placeholder, at_value, interpolate_rest, interpolate_env_vars,
}
use roos.Core.Config.Templates.{
  Part, IsPart, render, expand, expand_value, prepend, prepend-prepend, round, last_round,
  open_round,
}

prepend-nil : (r : Result ConfigError Text) → prepend [] r ≡ r
prepend-nil (ok t) = refl
prepend-nil (err e) = refl

at_value-expand :
    (env : Text → Option Text) (s : Text) (go_on : Text → Text → Option (Result ConfigError Text))
    (out l x n : Text) (rest : Result ConfigError Text)
    → ((v : Text) → go_on x ((out ++ l) ++ v) ≡ some (prepend ((out ++ l) ++ v) rest))
    → (o : Option Text)
    → at_value env s go_on (out ++ l) x n o ≡ some (prepend out (expand_value l n rest o))
at_value-expand env s go_on out l x n rest h none = refl
at_value-expand env s go_on out l x n rest h (some v) =
    h v
    ∙ ap some (ap (λ a. prepend a rest) (append_assoc out l v) ∙ prepend-prepend out (l ++ v) rest)

module _ (env : Text → Option Text) (s last : Text) (res : Result ConfigError Text)
    (end : (fuel : ℕ) (out : Text)
      → interpolate_rest env s (suc fuel) last out ≡ some (prepend out res)) where
  rounds :
      (parts : List Part) (fuel : ℕ) (out : Text)
      → length parts ≤ fuel
      → All IsPart parts
      → interpolate_rest env s (suc fuel) (render parts last) out
        ≡ some (prepend out (expand env parts res))
  unfolding render expand
  rounds [] fuel out h p = end fuel out
  rounds ((l, n) ∷ parts) zero out h p = absurd (omega arith)
  rounds ((l, n) ∷ parts) (suc fuel) out h (p, ps) =
      round env s (suc fuel) l n (render parts last) out p
      ∙ at_value-expand env s (interpolate_rest env s (suc fuel)) out l (render parts last) n
          (expand env parts res) (λ v. rounds parts fuel ((out ++ l) ++ v) (omega arith) ps) (env n)

length-render :
    (parts : List Part) (x : Text) → length (render parts x) ≡ length (render parts []) + length x
unfolding render
length-render [] x = omega arith
length-render ((l, n) ∷ parts) x = omega (arith, length-render parts x, length-append {0})

parts-le-render : (parts : List Part) (x : Text) → length parts ≤ length (render parts x)
unfolding render codes
parts-le-render [] x = omega arith
parts-le-render ((l, n) ∷ parts) x = omega (arith, parts-le-render parts x, length-append {0})

-- On a template, a text of literals without `${` and of closed placeholders, the interpolation
-- returns the text with the values in place of the placeholders, or the error for the first
-- variable that is not set.
pub interpolate-render :
    (env : Text → Option Text) (parts : List Part) (last : Text)
    → All IsPart parts
    → find (codes "${") last ≡ none
    → interpolate_env_vars env (render parts last) ≡ some (expand env parts (ok last))
unfolding interpolate_env_vars
interpolate-render env parts last h k =
    rounds env (render parts last) last (ok last)
      (λ fuel out. last_round env (render parts last) fuel last out k) parts
      (length (render parts last)) [] (parts-le-render parts last) h
    ∙ ap some (prepend-nil (expand env parts (ok last)))

-- On a template whose last placeholder is never closed, it returns the error for the first variable
-- that is not set, and if all are, `MalformedPlaceholder` with the offset of that placeholder.
pub interpolate-open :
    (env : Text → Option Text) (parts : List Part) (l x : Text)
    → All IsPart parts
    → find (codes "${") l ≡ none
    → find (codes "}") x ≡ none
    → interpolate_env_vars env (render parts (l ++ (codes "${" ++ x)))
      ≡ some (expand env parts (err (malformed_placeholder (length (render parts l)))))
unfolding interpolate_env_vars
interpolate-open env parts l x h k m =
    let last = l ++ (codes "${" ++ x) in
    let s = render parts last in
    rounds env s last (err (malformed_placeholder (length (render parts l))))
      (λ fuel out.
        open_round env s fuel l x out k m
        ∙ ap (λ n. some (err (malformed_placeholder n)))
            (omega (arith, length-render parts last, length-render parts l)))
      parts (length s) [] (parts-le-render parts last) h
    ∙ ap some (prepend-nil _)
