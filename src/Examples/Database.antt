-- ===== src/Examples/Database.antt =====
-- A database that behaves as `sled` is documented to, as an association list.
use roos.Base.{
  ℕ, ◌≡◌, arith, nat_eq, nat_eq_iff, ap, subst, if◌then◌else◌, sym, Bool-cases, inl, inr, Text,
  none, some, [], ◌∷◌, map, Result, ok, ok-injective, ℕ_eq,
}
use roos.Base.Dict
use roos.Base.Dict.{Dict, get-insert, get-remove}
use roos.Base.Sled.{Sled, SledLaws, Codec, CodecLaws}
use mathlib.Core.List.{Memᴰ}

module _ {B : Type 0} where
  abbrev pub table : Sled (Dict ℕ B) B
  table = record {
    get = λ d k. ok (Dict.get d k);
    insert = λ k b d. (ok tt, Dict.insert d k b);
    remove = λ k d. (ok tt, Dict.remove d k);
    iter = λ d. map ok d;
  }

  get-iter :
      (d : Dict ℕ B) (k : ℕ) (b : B)
      → Dict.get d k ≡ some b
      → Memᴰ {A = Result Text (ℕ × B)} (ok (k, b)) (map ok d)
  unfolding Dict.get
  get-iter [] k b h = absurd (cc)
  get-iter ((j, c) ∷ d) k b h = elim (Bool-cases (nat_eq j k)) [
    | inl same ↦ Memᴰ.head (ground (arith, same, nat_eq_iff j k))
    | inr other ↦ Memᴰ.tail (get-iter d k b (ground (arith, other)))
  ]

  pub table_laws : SledLaws (table)
  table_laws = record {
    get-insert = λ d d' k j b h.
        subst (λ x. table.get x j ≡ (if nat_eq k j then ok (some b) else table.get d j))
          (ap (λ p. p.1) h) (ground (arith, get-insert d k j b));
    get-remove = λ d d' k j h.
        subst (λ x. table.get x j ≡ (if nat_eq k j then ok none else table.get d j))
          (ap (λ p. p.1) h) (ground (arith, get-remove d k j));
    iter-get = λ d k b h. get-iter d k b (ok-injective h);
  }

  -- An encoding that is the value itself.
  abbrev pub plain : Codec B B
  plain = record { to_vec = ok; from_slice = ok }

  pub plain_laws : CodecLaws plain
  plain_laws = record { from_slice-to_vec = λ a b h. sym h }
