-- ===== src/Base/Order.antt =====
-- The order of Rust's `String`, byte by byte, and sorting by it.
use mathlib.Core.Path.{◌≡◌, refl}
use mathlib.Core.Logic.{inl, inr}
use mathlib.Core.Bool.{Bool, true, false}
use mathlib.Core.List.{List, [], ◌∷◌, Permᴰ}
use mathlib.Core.List.Permᴰ
use native.Mathlib.Omega.{arith}
use roos.Base.Tests.{ltb, nat_eq, Bool-cases, if◌then◌else◌}
use roos.Base.Lists.{All}
use roos.Base.Bytes.{Text}

-- `<=` of two strings.
unfoldable pub text_leb : Text → Text → Bool
text_leb [] t = true
text_leb (a ∷ s) [] = false
text_leb (a ∷ s) (b ∷ t) =
    let rest = text_leb s t in if ltb a b then true else if nat_eq a b then rest else false

text_leb_trans : (s t u : Text) → text_leb s t ≡ true → text_leb t u ≡ true → text_leb s u ≡ true
unfolding text_leb
text_leb_trans [] t u h k = refl
text_leb_trans (a ∷ s) [] u h k = absurd (cc)
text_leb_trans (a ∷ s) (b ∷ t) [] h k = absurd (cc)
text_leb_trans (a ∷ s) (b ∷ t) (c ∷ u) h k = ground (arith, text_leb_trans s t u)

text_leb_total : (s t : Text) → text_leb s t ≡ false → text_leb t s ≡ true
unfolding text_leb
text_leb_total [] t h = absurd (cc)
text_leb_total (a ∷ s) [] h = refl
text_leb_total (a ∷ s) (b ∷ t) h = ground (arith, text_leb_total s t)

unfoldable pub insert_sorted : Text → List Text → List Text
insert_sorted t [] = t ∷ []
insert_sorted t (u ∷ us) =
    let rest = insert_sorted t us in if text_leb t u then t ∷ u ∷ us else u ∷ rest

-- `sort`: equal strings cannot be told apart, so the order alone determines the result.
unfoldable pub sort : List Text → List Text
unfolding insert_sorted
sort [] = []
sort (t ∷ ts) = insert_sorted t (sort ts)

-- Each string is at most every later one.
abbrev pub IsSorted : List Text → Type 0
IsSorted [] = Unit
IsSorted (t ∷ ts) = All (λ u. text_leb t u ≡ true) ts × IsSorted ts

All-text_leb :
    (t u : Text) (us : List Text)
    → text_leb t u ≡ true
    → All (λ v. text_leb u v ≡ true) us
    → All (λ v. text_leb t v ≡ true) us
All-text_leb t u [] h below = tt
All-text_leb t u (v ∷ us) h below = (text_leb_trans t u v h below.0, All-text_leb t u us h below.1)

All-insert_sorted :
    (s t : Text) (us : List Text)
    → text_leb s t ≡ true
    → All (λ v. text_leb s v ≡ true) us
    → All (λ v. text_leb s v ≡ true) (insert_sorted t us)
unfolding insert_sorted
All-insert_sorted s t [] h below = (h, tt)
All-insert_sorted s t (u ∷ us) h below = elim (Bool-cases (text_leb t u)) [
  | inl first ↦ rw first (h, below)
  | inr later ↦ rw later (below.0, All-insert_sorted s t us h below.1)
]

insert_sorted-IsSorted : (t : Text) (us : List Text) → IsSorted us → IsSorted (insert_sorted t us)
unfolding insert_sorted
insert_sorted-IsSorted t [] sorted = (tt, tt)
insert_sorted-IsSorted t (u ∷ us) sorted = elim (Bool-cases (text_leb t u)) [
  | inl first ↦ rw first ((first, All-text_leb t u us first sorted.0), sorted)
  | inr later ↦ rw later (
    All-insert_sorted u t us (text_leb_total t u later) sorted.0,
    insert_sorted-IsSorted t us sorted.1,
  )
]

insert_sorted-perm : (t : Text) (us : List Text) → Permᴰ (t ∷ us) (insert_sorted t us)
unfolding insert_sorted
insert_sorted-perm t [] = Permᴰ.refl (t ∷ [])
insert_sorted-perm t (u ∷ us) = elim (Bool-cases (text_leb t u)) [
  | inl first ↦ rw first (Permᴰ.refl (t ∷ u ∷ us))
  | inr later ↦
      rw later (Permᴰ.trans (Permᴰ.swap refl refl) (Permᴰ.cons refl (insert_sorted-perm t us)))
]

pub sort-IsSorted : (ts : List Text) → IsSorted (sort ts)
unfolding sort
sort-IsSorted [] = tt
sort-IsSorted (t ∷ ts) = insert_sorted-IsSorted t (sort ts) (sort-IsSorted ts)

pub sort-perm : (ts : List Text) → Permᴰ ts (sort ts)
unfolding sort
sort-perm [] = Permᴰ.refl []
sort-perm (t ∷ ts) = Permᴰ.trans (Permᴰ.cons refl (sort-perm ts)) (insert_sorted-perm t (sort ts))
