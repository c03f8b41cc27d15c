-- ===== src/Core/Config/Decompose.antt =====
-- Every text is a template of crates/roos-core/src/config.rs, closed or left open.
use roos.Base.{
  ℕ, zero, suc, ◌+◌, ◌<◌, ◌≡◌, refl, sym, ap, subst, ◌∙◌, inl, inr, Text, codes, find, strip_prefix,
  strip_prefix_sound, Option, none, some, List, [], ◌∷◌, ◌++◌, length, take, length-append,
  Option-cases, arith, All, Result, ok, err,
}
use roos.Core.Config.{ConfigError, malformed_placeholder, interpolate_env_vars}
use roos.Core.Config.Templates.{Part, IsPart, render, expand, expand_value}
use roos.Core.Config.Complete.{interpolate-render, interpolate-open}

-- What `find` finds stands there.
find-split : (p s : Text) (i : ℕ) → find p s ≡ some i → (t : Text) × (s ≡ take i s ++ (p ++ t))
unfolding find
find-split p [] i h = elim (Option-cases (strip_prefix p [])) [
  | inl q ↦ absurd (ground arith)
  | inr (t, q) ↦ let e : i ≡ 0 = ground arith in (t, rw e (strip_prefix_sound p [] q))
]
find-split p (c ∷ s) i h = elim (Option-cases (strip_prefix p (c ∷ s))) [
  | inl q ↦ elim (Option-cases (find p s)) [
    | inl n ↦ absurd (ground arith)
    | inr (j, n) ↦
        let e : i ≡ suc j = ground arith in
        let (t, w) = find-split p s j n in (t, rw e (ap (λ l. c ∷ l) w))
  ]
  | inr (t, q) ↦ let e : i ≡ 0 = ground arith in (t, rw e (strip_prefix_sound p (c ∷ s) q))
]

-- A prefix of what was taken is a prefix of the whole.
strip_prefix-take :
    (p s : Text) (n : ℕ) → strip_prefix p s ≡ none → strip_prefix p (take n s) ≡ none
unfolding strip_prefix
strip_prefix-take [] s n h = ground arith
strip_prefix-take (a ∷ p) [] zero h = refl
strip_prefix-take (a ∷ p) [] (suc n) h = refl
strip_prefix-take (a ∷ p) (b ∷ s) zero h = refl
strip_prefix-take (a ∷ p) (b ∷ s) (suc n) h = ground (arith, strip_prefix-take p s n)

-- Before the first occurrence there is none.
find-take : (a : ℕ) (p s : Text) (i : ℕ) → find (a ∷ p) s ≡ some i → find (a ∷ p) (take i s) ≡ none
unfolding find strip_prefix
find-take a p [] i h = absurd (ground arith)
find-take a p (c ∷ s) i h = elim (Option-cases (strip_prefix (a ∷ p) (c ∷ s))) [
  | inl q ↦ elim (Option-cases (find (a ∷ p) s)) [
    | inl n ↦ absurd (ground arith)
    | inr (j, n) ↦
        let e : i ≡ suc j = ground arith in
        rw e (rw (strip_prefix-take (a ∷ p) (c ∷ s) (suc j) q) (rw (find-take a p s j n)))
  ]
  | inr (t, q) ↦ let e : i ≡ 0 = ground arith in rw e refl
]

pub data IsTemplate (s : Text) : Type 0 where
  closed :
      (parts : List Part) (last : Text)
      → All IsPart parts
      → find (codes "${") last ≡ none
      → s ≡ render parts last
      → IsTemplate s
  left_open :
      (parts : List Part) (l x : Text)
      → All IsPart parts
      → find (codes "${") l ≡ none
      → find (codes "}") x ≡ none
      → s ≡ render parts (l ++ (codes "${" ++ x))
      → IsTemplate s

expand_value-err :
    (l n : Text) (x : ConfigError) (o : Option Text)
    → (y : ConfigError) × (expand_value l n (err x) o ≡ err y)
expand_value-err l n x none = (_, refl)
expand_value-err l n x (some v) = (x, refl)

expand-err :
    (env : Text → Option Text) (parts : List Part) (x : ConfigError)
    → (y : ConfigError) × (expand env parts (err x) ≡ err y)
unfolding expand
expand-err env [] x = (x, refl)
expand-err env ((l, n) ∷ parts) x =
    let (y, e) = expand-err env parts x in rw e (expand_value-err l n y (env n))

behind_part :
    (l n t : Text)
    → IsPart (l, n)
    → IsTemplate t
    → IsTemplate (l ++ (codes "${" ++ (n ++ (codes "}" ++ t))))
unfolding render
behind_part l n t p (closed parts last h k e) =
    closed ((l, n) ∷ parts) last (p, h) k (ap (λ y. l ++ (codes "${" ++ (n ++ (codes "}" ++ y)))) e)
behind_part l n t p (left_open parts l' x h k m e) =
    left_open ((l, n) ∷ parts) l' x (p, h) k m
      (ap (λ y. l ++ (codes "${" ++ (n ++ (codes "}" ++ y)))) e)

length_part :
    (l n t : Text)
    → length (l ++ (codes "${" ++ (n ++ (codes "}" ++ t)))) ≡ length l + length n + length t + 3
unfolding codes
length_part l n t = omega (arith, length-append {0})

decompose : (fuel : ℕ) (s : Text) → length s < fuel → IsTemplate s
unfolding render codes
decompose zero s h = absurd (omega arith)
decompose (suc fuel) s h = elim (Option-cases (find (codes "${") s)) [
  | inl none_left ↦ closed [] s tt none_left refl
  | inr (i, p) ↦
      let (after, e) = find-split (codes "${") s i p in
      let clean : find (codes "${") (take i s) ≡ none = find-take 36 (123 ∷ []) s i p in
      elim (Option-cases (find (codes "}") after)) [
        | inl never ↦ left_open [] (take i s) after tt clean never e
        | inr (j, q) ↦
            let (t, w) = find-split (codes "}") after j q in
            let whole : s ≡ take i s ++ (codes "${" ++ (take j after ++ (codes "}" ++ t))) =
              e ∙ ap (λ y. take i s ++ (codes "${" ++ y)) w in
            subst IsTemplate (sym whole) (
              behind_part (take i s) (take j after) t (clean, find-take 125 [] after j q)
                (decompose fuel t
                  (omega (arith, ap length whole, length_part (take i s) (take j after) t))))
      ]
]

-- Every text is a template: it splits at its placeholders, and the last one may be left open.
every_text-IsTemplate : (s : Text) → IsTemplate s
every_text-IsTemplate s = decompose (suc (length s)) s (omega arith)

-- The interpolation of `s` ends with a result, and if that is `Ok`, then `s` is a template whose
-- placeholders are all closed, and the result is its text with the values put in.
abbrev pub Interpolates : (Text → Option Text) → Text → Type 0
Interpolates env s =
    ((r : Result ConfigError Text) × (interpolate_env_vars env s ≡ some r))
    × ((t : Text)
        → interpolate_env_vars env s ≡ some (ok t)
        → (parts : List Part) × (last : Text) × All IsPart parts
          × (find (codes "${") last ≡ none)
          × (s ≡ render parts last)
          × (expand env parts (ok last) ≡ ok t))

template-Interpolates : (env : Text → Option Text) (s : Text) → IsTemplate s → Interpolates env s
template-Interpolates env s (closed parts last h k e) =
    let runs : interpolate_env_vars env s ≡ some (expand env parts (ok last)) =
      rw e (interpolate-render env parts last h k) in
    ((expand env parts (ok last), runs), λ t q. (parts, last, h, k, e, cc (runs, q)))
template-Interpolates env s (left_open parts l x h k m e) =
    let (y, q) = expand-err env parts (malformed_placeholder (length (render parts l))) in
    let runs : interpolate_env_vars env s ≡ some (err y) =
      rw (e, ← q) (interpolate-open env parts l x h k m) in
    ((err y, runs), λ t r. absurd (cc (r, runs)))

-- The interpolation of every text ends with a result, and succeeds only on a template whose
-- placeholders are all closed, with its values put in.
pub interpolate-total : (env : Text → Option Text) (s : Text) → Interpolates env s
interpolate-total env s = template-Interpolates env s (every_text-IsTemplate s)
