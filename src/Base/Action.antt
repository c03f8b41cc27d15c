-- ===== src/Base/Action.antt =====
-- A method that reads and changes the world and may fail: what was changed before a failure stays
-- changed, so the world comes back beside the error too. `do` chains actions as `?` does.
use roos.Base.Fallible.{Result, ok, err}

abbrev pub Action {ℓ} : Type ℓ → Type ℓ → Type ℓ → Type ℓ
Action W E A = W → Result E A × W

module _ {ℓ} {W E A : Type ℓ} where
  abbrev pub pure : A → Action W E A
  pure a w = (ok a, w)

  abbrev pub throw : E → Action W E A
  throw e w = (err e, w)

  abbrev pub lift : Result E A → Action W E A
  lift r w = (r, w)

module _ {ℓ} {W E F A : Type ℓ} where
  abbrev pub map_fst : (E → F) → Result E A → W → Result F A × W
  map_fst f (ok a) w = (ok a, w)
  map_fst f (err e) w = (err (f e), w)

  -- `.map_err(f)` on the result of an action.
  abbrev pub map_throw : (E → F) → Action W E A → Action W F A
  map_throw f m w = map_fst f (m w).0 (m w).1

module _ {ℓ} {W E A B : Type ℓ} where
  abbrev pub continue : Result E A → (A → Action W E B) → Action W E B
  continue (ok a) f w = f a w
  continue (err e) f w = (err e, w)

  infixl 5 ◌>>=◌ ◌>>◌
  abbrev pub ◌>>=◌ : Action W E A → (A → Action W E B) → Action W E B
  ◌>>=◌ m f w = continue (m w).0 f (m w).1

  abbrev pub ◌>>◌ : Action W E A → Action W E B → Action W E B
  m >> n = m >>= λ _. n
