-- ===== src/Core/Config/Templates.antt =====
-- The interpolation of crates/roos-core/src/config.rs against templates: literals and placeholders.
use roos.Base.{
  ℕ, suc, ◌+◌, ◌-◌, ◌≤◌, ◌≡◌, refl, ap, ◌∙◌, inl, inr, Text, codes, find, strip_prefix,
  strip_prefix_sound, Option, none, some, List, [], ◌∷◌, ◌++◌, append_assoc, Result, ok, err,
  length, drop, take_append, drop_append, length-append, Option-cases, arith,
}
use roos.Core.Config.{
  ConfigError, missing_env_var, malformed_placeholder, at_value, interpolate_rest,
}

-- A literal and the name of the variable that follows it.
abbrev pub Part : Type 0
Part = Text × Text

unfoldable pub render : List Part → Text → Text
render [] last = last
render ((literal, name) ∷ parts) last =
    literal ++ (codes "${" ++ (name ++ (codes "}" ++ render parts last)))

abbrev pub prepend : Text → Result ConfigError Text → Result ConfigError Text
prepend out (ok t) = ok (out ++ t)
prepend out (err e) = err e

abbrev pub expand_value :
    Text → Text → Result ConfigError Text → Option Text → Result ConfigError Text
expand_value literal name rest none = err (missing_env_var name)
expand_value literal name rest (some value) = prepend (literal ++ value) rest

-- The text with every variable replaced by its value, once, left to right, or the error of the
-- first that is not set; `last` is what the text behind the parts gives.
unfoldable pub expand :
    (Text → Option Text) → List Part → Result ConfigError Text → Result ConfigError Text
expand env [] last = last
expand env ((literal, name) ∷ parts) last =
    expand_value literal name (expand env parts last) (env name)

-- A literal holds no `${`, and a name no `}`.
abbrev pub IsPart : Part → Type 0
IsPart (literal, name) = (find (codes "${") literal ≡ none) × (find (codes "}") name ≡ none)

length-strip_prefix : (p s t : Text) → strip_prefix p s ≡ some t → length s ≡ length p + length t
length-strip_prefix p s t h = ap length (strip_prefix_sound p s h) ∙ length-append p t

find_bound : (p s : Text) (i : ℕ) → find p s ≡ some i → i + length p ≤ length s
unfolding find
find_bound p [] i h = elim (Option-cases (strip_prefix p [])) [
  | inl q ↦ absurd (ground arith)
  | inr (t, q) ↦ ground (arith, length-strip_prefix p [] t q)
]
find_bound p (c ∷ s) i h = elim (Option-cases (strip_prefix p (c ∷ s))) [
  | inl q ↦ elim (Option-cases (find p s)) [
    | inl n ↦ absurd (ground arith)
    | inr (j, n) ↦ ground (arith, find_bound p s j n)
  ]
  | inr (t, q) ↦ ground (arith, length-strip_prefix p (c ∷ s) t q)
]

find_marker :
    (l r : Text)
    → find (codes "${") l ≡ none
    → find (codes "${") (l ++ (codes "${" ++ r)) ≡ some (length l)
unfolding find strip_prefix codes
find_marker [] r h = refl
find_marker (c ∷ []) r h = ground arith
find_marker (c ∷ d ∷ l) r h = ground (arith, find_marker (d ∷ l) r)

find_close :
    (l r : Text)
    → find (codes "}") l ≡ none
    → find (codes "}") (l ++ (codes "}" ++ r)) ≡ some (length l)
unfolding find strip_prefix codes
find_close [] r h = refl
find_close (c ∷ l) r h = ground (arith, find_close l r)

drop_behind : (l m x : Text) (n : ℕ) → n ≡ length m → drop (length l + n) (l ++ (m ++ x)) ≡ x
drop_behind l m x n e = rw (e, ← length-append l m, ← append_assoc l m x) (drop_append (l ++ m) x)

pub prepend-prepend :
    (a b : Text) (r : Result ConfigError Text) → prepend (a ++ b) r ≡ prepend a (prepend b r)
prepend-prepend a b (ok t) = ap ok (append_assoc a b t)
prepend-prepend a b (err e) = refl

module _ (env : Text → Option Text) (s : Text) where
  -- One round of the loop, at a placeholder.
  pub round :
      (fuel : ℕ) (l n x out : Text)
      → IsPart (l, n)
      → interpolate_rest env s (suc fuel) (l ++ (codes "${" ++ (n ++ (codes "}" ++ x)))) out
        ≡ at_value env s (interpolate_rest env s fuel) (out ++ l) x n (env n)
  unfolding interpolate_rest
  round fuel l n x out (h, k) =
      rw (find_marker l (n ++ (codes "}" ++ x)) h, interpolate_rest)
        (rw (drop_behind l (codes "${") (n ++ (codes "}" ++ x)) 2 refl) (
          rw (find_close n x k)
            (rw (drop_behind n (codes "}") x 1 refl, take_append n, take_append l))))

  -- The last literal, which holds no placeholder.
  pub last_round :
      (fuel : ℕ) (last out : Text)
      → find (codes "${") last ≡ none
      → interpolate_rest env s (suc fuel) last out ≡ some (ok (out ++ last))
  unfolding interpolate_rest
  last_round fuel last out h = rw (h, interpolate_rest)

  -- A placeholder that is never closed.
  pub open_round :
      (fuel : ℕ) (l x out : Text)
      → find (codes "${") l ≡ none
      → find (codes "}") x ≡ none
      → interpolate_rest env s (suc fuel) (l ++ (codes "${" ++ x)) out
        ≡ some (err (malformed_placeholder (length s - length (l ++ (codes "${" ++ x)) + length l)))
  unfolding interpolate_rest
  open_round fuel l x out h k =
      rw (find_marker l x h, interpolate_rest) (rw (drop_behind l (codes "${") x 2 refl) (rw k))
