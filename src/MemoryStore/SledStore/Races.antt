-- ===== src/MemoryStore/SledStore/Races.antt =====
-- Two appends at once to the store of crates/roos-memory/src/sled_store.rs: `append` loads and then
-- stores, and no lock is held between.
use roos.Base.{ℕ, ◌≡◌, refl, ap, none, some, Result, ok}
use roos.Base.Sled.{Sled, SledLaws, Codec, CodecLaws}
use roos.Core.Types.{Uuid}
use roos.Core.Memory
use roos.Core.Memory.{MemoryError, ConversationHistory, ConversationMessage}
use roos.MemoryStore.SledStore.{StoredEntry, store, load, history_or_new, push_and_store, append}
use roos.MemoryStore.SledStore.Expiry.{load-store}

module _ {D B : Type 0} (sled : Sled D B) (codec : Codec StoredEntry B) where
  -- The two halves of an `append`.
  abbrev pub first_half : Uuid → ℕ → D → Result MemoryError ConversationHistory × D
  first_half id now d =
      let (r, d') = load sled codec id now d in (history_or_new sled codec id r, d')

  abbrev pub second_half :
      Result MemoryError ConversationHistory
      → ConversationMessage
      → ℕ
      → D
      → Result MemoryError (Unit {0}) × D
  second_half r message now d = push_and_store sled codec none r message now d

  -- Both load, then both store: the results of the two and the database.
  unfoldable pub interleaved :
      Uuid
      → ConversationMessage
      → ConversationMessage
      → (ℕ → ℕ)
      → D
      → Result MemoryError (Unit {0}) × Result MemoryError (Unit {0}) × D
  interleaved id m1 m2 clock d =
      let (r1, d1) = first_half id (clock 0) d in
      let (r2, d2) = first_half id (clock 1) d1 in
      let (x1, d3) = second_half r1 m1 (clock 2) d2 in
      let (x2, d4) = second_half r2 m2 (clock 3) d3 in (x1, x2, d4)

  append-halves :
      (id : Uuid) (m : ConversationMessage) (now now' : ℕ) (d : D)
      → append sled codec none id m now now' d
        ≡ (let (r, d') = first_half id now d in second_half r m now' d')
  unfolding append
  append-halves id m now now' d = refl

  module _ (sled_laws : SledLaws sled) (codec_laws : CodecLaws codec) where
    loads_stored :
        (h : ConversationHistory) (now t : ℕ) (d d' : D)
        → store sled codec none h now d ≡ (ok tt, d')
        → load sled codec h.run_id t d' ≡ (ok (some h), d')
    loads_stored h now t d d' e =
        (load-store sled codec sled_laws codec_laws none h now t d d' e).0 refl

    -- An append to a stored history stores it with the message.
    append-stored :
        (h : ConversationHistory) (m : ConversationMessage) (now t t' : ℕ) (d d' d'' : D)
        → store sled codec none h now d ≡ (ok tt, d')
        → append sled codec none h.run_id m t t' d' ≡ (ok tt, d'')
        → store sled codec none (Memory.push h m) t' d' ≡ (ok tt, d'')
    unfolding append
    append-stored h m now t t' d d' d'' e done = rw (loads_stored h now t d d' e) at done

    interleaved-stored :
        (h : ConversationHistory) (m1 m2 : ConversationMessage) (now : ℕ) (clock : ℕ → ℕ)
        (d d' d'' : D)
        → store sled codec none h now d ≡ (ok tt, d')
        → interleaved h.run_id m1 m2 clock d' ≡ (ok tt, ok tt, d'')
        → (d1 : D) × (store sled codec none (Memory.push h m1) (clock 2) d' ≡ (ok tt, d1))
          × (store sled codec none (Memory.push h m2) (clock 3) d1 ≡ (ok tt, d''))
    unfolding interleaved
    interleaved-stored h m1 m2 now clock d d' d'' e done =
        let both =
          rw (loads_stored h now (clock 0) d d' e, loads_stored h now (clock 1) d d' e) at done in
        let d1 = (store sled codec none (Memory.push h m1) (clock 2) d').1 in
        (d1, ap (λ x. (x.0, d1)) both, ap (λ x. (x.1, x.2)) both)

    -- Two appends to one stored history, both of which return `Ok`, on a store without a time to live
    -- whose database and encoding meet their laws. One after the other, they leave the history with
    -- both messages. If both load before either stores, they leave it with the second message only: the
    -- first is lost.
    pub interleaved_appends-lose :
        (h : ConversationHistory) (m1 m2 : ConversationMessage) (now t : ℕ) (clock : ℕ → ℕ)
        (d0 d d1 d2 d3 : D)
        → store sled codec none h now d0 ≡ (ok tt, d)
        → append sled codec none h.run_id m1 (clock 0) (clock 1) d ≡ (ok tt, d1)
        → append sled codec none h.run_id m2 (clock 2) (clock 3) d1 ≡ (ok tt, d2)
        → interleaved h.run_id m1 m2 clock d ≡ (ok tt, ok tt, d3)
        → (load sled codec h.run_id t d2 ≡ (ok (some (Memory.push (Memory.push h m1) m2)), d2))
          × (load sled codec h.run_id t d3 ≡ (ok (some (Memory.push h m2)), d3))
    unfolding Memory.push
    interleaved_appends-lose h m1 m2 now t clock d0 d d1 d2 d3 e first second both =
        let stored = append-stored h m1 now (clock 0) (clock 1) d0 d d1 e first in
        let stored' =
          append-stored (Memory.push h m1) m2 (clock 1) (clock 2) (clock 3) d d1 d2 stored second in
        let (d', _, last) = interleaved-stored h m1 m2 now clock d0 d d3 e both in
        (
          loads_stored (Memory.push (Memory.push h m1) m2) (clock 3) t d1 d2 stored',
          loads_stored (Memory.push h m2) (clock 3) t d' d3 last,
        )
