-- ===== src/Base/Bytes.antt =====
-- Rust's `String` and `&str` as their UTF-8 bytes: offsets and lengths are those of the source.
use Prim.Native.Nat.{ℕ, zero, suc, ◌+◌, ◌/◌, ◌%◌}
use Prim.Native.Char.{code}
use Prim.Native.String.{String}
use mathlib.Core.Path.{◌≡◌, refl}
use mathlib.Core.Logic.{◌↔◌}
use mathlib.Core.Bool.{Bool, true, false, ◌&&◌}
use mathlib.Core.Option.{Option, none, some}
use mathlib.Core.List.{List, [], ◌∷◌, ◌++◌}
use native.Mathlib.Omega.{arith}
use roos.Base.Tests.{ltb, nat_eq, if◌then◌else◌, Eq}

abbrev pub Text : Type 0
Text = List ℕ

-- The bytes of an ASCII literal.
unfoldable pub codes : String → Text
codes String.[] = []
codes (String.◌∷◌ c s) = code c ∷ codes s

unfoldable pub text_eq : Text → Text → Bool
text_eq [] [] = true
text_eq (a ∷ s) (b ∷ t) = nat_eq a b && text_eq s t
text_eq _ _ = false

pub text_eq_sound : (s t : Text) → text_eq s t ≡ true → s ≡ t
unfolding text_eq
text_eq_sound [] [] h = refl
text_eq_sound [] (b ∷ t) h = ground arith
text_eq_sound (a ∷ s) [] h = ground arith
text_eq_sound (a ∷ s) (b ∷ t) h = ground (arith, text_eq_sound s t)

pub text_eq_refl : (s : Text) → text_eq s s ≡ true
unfolding text_eq
text_eq_refl [] = refl
text_eq_refl (a ∷ s) = ground (arith, text_eq_refl s)

pub text_eq_iff : (s t : Text) → (text_eq s t ≡ true) ↔ (s ≡ t)
text_eq_iff s t = (text_eq_sound s t, λ e. rw e (text_eq_refl t))

instance abbrev pub text_Eq : Eq Text
text_Eq = record { is_eq = text_eq; is_eq_iff = text_eq_iff }

-- `strip_prefix`: what follows `p`, if `s` begins with `p`.
unfoldable pub strip_prefix : Text → Text → Option Text
strip_prefix [] s = some s
strip_prefix (a ∷ p) [] = none
strip_prefix (a ∷ p) (b ∷ s) = if nat_eq a b then strip_prefix p s else none

-- A stripped prefix is what stood before the rest, and nothing else is taken.
pub strip_prefix_sound : (p s : Text) {t : Text} → strip_prefix p s ≡ some t → s ≡ p ++ t
unfolding strip_prefix
strip_prefix_sound [] s h = ground arith
strip_prefix_sound (a ∷ p) [] h = cc
strip_prefix_sound (a ∷ p) (b ∷ s) {t} h = ground (arith, strip_prefix_sound p s {t = t})

pub strip_prefix_append : (p t : Text) → strip_prefix p (p ++ t) ≡ some t
unfolding strip_prefix
strip_prefix_append [] t = refl
strip_prefix_append (a ∷ p) t = ground (arith, strip_prefix_append p t)

abbrev pub shifted : Option ℕ → Option ℕ
shifted none = none
shifted (some i) = some (suc i)

abbrev pub first_at {ℓ} : {A : Type ℓ} → Option A → Option ℕ → Option ℕ
first_at (some _) later = some 0
first_at none later = later

-- `s.find(p)`: the offset of the first occurrence of `p` in `s`.
unfoldable pub find : Text → Text → Option ℕ
unfolding strip_prefix
find p [] = first_at (strip_prefix p []) none
find p (c ∷ s) = first_at (strip_prefix p (c ∷ s)) (shifted (find p s))

-- `parts.join(sep)`.
unfoldable pub join : Text → List Text → Text
join sep [] = []
join sep (t ∷ []) = t
join sep (t ∷ u ∷ ts) = t ++ (sep ++ join sep (u ∷ ts))

-- `{n}` of a format string for an unsigned integer: its decimal digits.
decimal_digits : ℕ → ℕ → Text → Text
decimal_digits zero n acc = acc
decimal_digits (suc fuel) n acc =
    let rest = decimal_digits fuel (n / 10) ((48 + n % 10) ∷ acc) in
    if ltb n 10 then (48 + n) ∷ acc else rest

unfoldable pub show_nat : ℕ → Text
unfolding decimal_digits
show_nat n = decimal_digits (suc n) n []
