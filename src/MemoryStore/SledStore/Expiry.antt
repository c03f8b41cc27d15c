-- ===== src/MemoryStore/SledStore/Expiry.antt =====
-- How entries of crates/roos-memory/src/sled_store.rs expire.
use roos.Base.{
  ℕ, ◌+◌, ◌^◌, ◌<◌, ◌≤◌, ◌≡◌, ◌≢◌, refl, subst, inl, inr, Option, none, some, ok, err, Result-cases,
  nat_eq_iff, arith,
}
use roos.Base.Sled.{Sled, SledLaws, Codec, CodecLaws}
use roos.Core.Types.{Uuid}
use roos.Core.Memory
use roos.Core.Memory.{MemoryError, expired, ConversationHistory, ConversationMessage}
use roos.MemoryStore.SledStore.{StoredEntry, make_entry, store, load, append}

module _ {D B : Type 0} (sled : Sled D B) (codec : Codec StoredEntry B) (sled_laws : SledLaws sled)
    (codec_laws : CodecLaws codec) where
  -- The bytes under a key, after a successful store.
  pub store-inv :
      (ttl : Option ℕ) (h : ConversationHistory) (now : ℕ) (d d' : D)
      → store sled codec ttl h now d ≡ (ok tt, d')
      → (b : B) × (codec.to_vec (make_entry sled codec ttl h now) ≡ ok b)
        × (sled.insert h.run_id b d ≡ (ok tt, d'))
  unfolding store
  store-inv ttl h now d d' e =
      elim (Result-cases (codec.to_vec (make_entry sled codec ttl h now))) [
        | inl (b, p) ↦ (b, p, ground arith)
        | inr (x, p) ↦ absurd (ground arith)
      ]

  -- A load at the time `t` of a history that was stored at the time `now`. Without a time to live it
  -- returns the history. With `s` seconds, if `now + s` is a `u64`, it returns the history up to
  -- and including `now + s` and fails with `Expired` from then on. The loads of other ids are those
  -- of the database before the store.
  pub load-store :
      (ttl : Option ℕ) (h : ConversationHistory) (now t : ℕ) (d d' : D)
      → store sled codec ttl h now d ≡ (ok tt, d')
      → (ttl ≡ none → load sled codec h.run_id t d' ≡ (ok (some h), d'))
        × ((s : ℕ)
            → ttl ≡ some s
            → now + s < 2 ^ 64
            → (t ≤ now + s → load sled codec h.run_id t d' ≡ (ok (some h), d'))
              × (now + s < t → (load sled codec h.run_id t d').0 ≡ err (expired h.run_id)))
        × ((j : Uuid) → h.run_id ≢ j → (load sled codec j t d').0 ≡ (load sled codec j t d).0)
  unfolding load make_entry
  load-store ttl h now t d d' e =
      let (b, p, q) = store-inv ttl h now d d' e in
      let back = codec_laws.from_slice-to_vec _ b p in
      let own = sled_laws.get-insert d d' h.run_id h.run_id b q in
      (
        λ n. ground (arith, back, own),
        λ s n f. (λ l. ground (arith, back, own), λ l. ground (arith, back, own)),
        λ j ne. ground (arith, sled_laws.get-insert d d' h.run_id j b q, nat_eq_iff h.run_id j),
      )

  -- With a time to live of `s` seconds, an append to a stored history does exactly what a store does:
  -- of the history with the message while it has not expired, and from then on, on the database that
  -- the lazy eviction left, of a new history with the one message.
  pub append-store :
      (s : ℕ) (h : ConversationHistory) (m : ConversationMessage) (now now1 now2 : ℕ) (d d' : D)
      → store sled codec (some s) h now d ≡ (ok tt, d')
      → now + s < 2 ^ 64
      → (now1 ≤ now + s
          → append sled codec (some s) h.run_id m now1 now2 d'
            ≡ store sled codec (some s) (Memory.push h m) now2 d')
        × (now + s < now1
            → append sled codec (some s) h.run_id m now1 now2 d'
              ≡ store sled codec
                  (some s)
                  (Memory.push (Memory.new h.run_id) m)
                  now2
                  (load sled codec h.run_id now1 d').1)
  unfolding append
  append-store s h m now now1 now2 d d' saved fits =
      let first = (load-store (some s) h now now1 d d' saved).1 s refl fits in
      (
        λ within. let read = first.0 within in ground (arith, read),
        λ late. let read = first.1 late in ground (arith, read),
      )

  module _ (s : ℕ) (h : ConversationHistory) (m : ConversationMessage) (now now1 now2 t : ℕ)
      (d d' d'' : D) (saved : store sled codec (some s) h now d ≡ (ok tt, d'))
      (added : append sled codec (some s) h.run_id m now1 now2 d' ≡ (ok tt, d''))
      (fits : now + s < 2 ^ 64) (fits2 : now2 + s < 2 ^ 64) where
    reload :
        (g : ConversationHistory) (x : D)
        → g.run_id ≡ h.run_id
        → store sled codec (some s) g now2 x ≡ (ok tt, d'')
        → t ≤ now2 + s
        → load sled codec h.run_id t d'' ≡ (ok (some g), d'')
    reload g x own e l =
        subst (λ k. load sled codec k t d'' ≡ (ok (some g), d'')) own
          (((load-store (some s) g now2 t x d'' e).1 s refl fits2).0 l)

    -- With a time to live of `s` seconds: an append to a history that has not expired extends it, an
    -- append to one that has expired begins a new history with its one message, and either way the
    -- result can be loaded for `s` seconds from the append on. The conditions: the store before and the
    -- append return `Ok`, their times of expiry are below 2^64, and the database and the encoding meet
    -- their laws.
    pub append-renews :
        t ≤ now2 + s
        → (now1 ≤ now + s → load sled codec h.run_id t d'' ≡ (ok (some (Memory.push h m)), d''))
          × (now + s < now1
              → load sled codec h.run_id t d''
                ≡ (ok (some (Memory.push (Memory.new h.run_id) m)), d''))
    unfolding append Memory.push Memory.new
    append-renews l =
        let first = (load-store (some s) h now now1 d d' saved).1 s refl fits in
        (
          λ within.
              let before = first.0 within in
              reload (Memory.push h m) d' refl (ground (arith, before, added)) l,
          λ late.
              let before = first.1 late in
              reload (Memory.push (Memory.new h.run_id) m) (load sled codec h.run_id now1 d').1 refl
                (ground (arith, before, added)) l,
        )
