-- ===== src/MemoryStore/SledStore/Refines.antt =====
-- Without a time to live, the store of crates/roos-memory/src/sled_store.rs implements the abstract
-- memory.
use roos.Base.{
  ℕ, ◌≡◌, refl, sym, ap, ◌∙◌, subst, inl, inr, ◌⊎◌, Text, Option, none, some, Result, ok, err,
  ok-injective, Bool-cases, nat_eq, nat_eq_iff, if◌then◌else◌, arith,
}
use roos.Base.Sled.{Sled, SledLaws, Codec, CodecLaws}
use roos.Core.Types.{Uuid}
use roos.Core.Memory
use roos.Core.Memory.{MemoryError, ConversationHistory, ConversationMessage}
use roos.MemoryStore.Spec.{Histories, Implements, or_new}
use roos.MemoryStore.SledStore.{
  StoredEntry, make_entry, store, load, append, clear, history_or_new, decoded, Timed, later,
  sled_memory,
}
use roos.MemoryStore.SledStore.Expiry.{store-inv}

ran :
    {D A : Type 0} (n : ℕ) (w w' : Timed D) (x : Result MemoryError A × D)
    (r : Result MemoryError A)
    → ◌≡◌ {A = Result MemoryError A × Timed D} (x.0, later n w x.1) (r, w')
    → x ≡ (r, w'.db)
ran n w w' x r h = ap (λ p. (p.0, p.1.db)) h

module _ {D B : Type 0} (sled : Sled D B) (codec : Codec StoredEntry B) where
  -- Under the key `k` there is nothing, or a history of the run `k` that does not expire.
  abbrev pub IsReadable : Uuid → Result Text (Option B) → Type 0
  IsReadable k r =
      (r ≡ ok none)
      ⊎ ((b : B) × (h : ConversationHistory) × (r ≡ ok (some b))
          × (codec.from_slice b ≡ ok (record { history = h; expires_at = none }))
          × (h.run_id ≡ k))

  abbrev history_of : Result Text StoredEntry → Option ConversationHistory
  history_of (ok entry) = some entry.history
  history_of (err e) = none

  abbrev read : Result Text (Option B) → Option ConversationHistory
  read (ok (some b)) = history_of (codec.from_slice b)
  read (ok none) = none
  read (err e) = none

  abbrev pub AllReadable : Timed D → Type 0
  AllReadable w = (k : Uuid) → IsReadable k (sled.get w.db k)

  abbrev pub view : Timed D → Histories
  view w k = read (sled.get w.db k)

  decoded-read :
      (id : Uuid) (t : ℕ) (r : Result Text (Option B)) (d : D)
      → IsReadable id r
      → decoded sled codec id t r d ≡ (ok (read r), d)
  decoded-read id t r d (inl gone) = rw gone refl
  decoded-read id t r d (inr (b, h, there, entry, own)) = rw (there, entry) refl

  load-read :
      (id : Uuid) (t : ℕ) (d : D)
      → IsReadable id (sled.get d id)
      → load sled codec id t d ≡ (ok (read (sled.get d id)), d)
  unfolding load
  load-read id t d h = decoded-read id t (sled.get d id) d h

  or_new-run_id :
      (id : Uuid) (r : Result Text (Option B)) → IsReadable id r → (or_new id (read r)).run_id ≡ id
  unfolding Memory.new
  or_new-run_id id r (inl gone) = rw gone refl
  or_new-run_id id r (inr (b, h, there, entry, own)) = rw (there, entry) own

  history_or_new-ok :
      (id : Uuid) (o : Option ConversationHistory)
      → history_or_new sled codec id (ok o) ≡ ok (or_new id o)
  history_or_new-ok id none = refl
  history_or_new-ok id (some h) = refl

  append-read :
      (id : Uuid) (message : ConversationMessage) (t t' : ℕ) (d : D)
      → IsReadable id (sled.get d id)
      → append sled codec none id message t t' d
        ≡ store sled codec none (Memory.push (or_new id (read (sled.get d id))) message) t' d
  unfolding append
  append-read id message t t' d h =
      rw (load-read id t d h, history_or_new-ok id (read (sled.get d id))) refl

  module _ (sled_laws : SledLaws sled) (codec_laws : CodecLaws codec) where
    -- Under each key, after a store.
    store-read :
        (h : ConversationHistory) (now : ℕ) (d d' : D) (k : Uuid)
        → store sled codec none h now d ≡ (ok tt, d')
        → IsReadable k (sled.get d k)
        → IsReadable k (sled.get d' k)
          × (read (sled.get d' k) ≡ (if nat_eq h.run_id k then some h else read (sled.get d k)))
    unfolding make_entry
    store-read h now d d' k e readable =
        let (b, p, q) = store-inv sled codec sled_laws codec_laws none h now d d' e in
        let back = codec_laws.from_slice-to_vec _ b p in
        let got = sled_laws.get-insert d d' h.run_id k b q in
        elim (Bool-cases (nat_eq h.run_id k)) [
          | inl same ↦
              let there : sled.get d' k ≡ ok (some b) =
                got ∙ ap (λ c. if c then ok (some b) else sled.get d k) same in
              (inr (b, h, there, back, (nat_eq_iff h.run_id k).0 same), rw (there, back, same) refl)
          | inr other ↦
              let kept : sled.get d' k ≡ sled.get d k =
                got ∙ ap (λ c. if c then ok (some b) else sled.get d k) other in
              (subst (IsReadable k) (sym kept) readable, rw (kept, other) refl)
        ]

    remove-read :
        (id : Uuid) (d d' : D) (k : Uuid)
        → clear sled codec id d ≡ (ok tt, d')
        → IsReadable k (sled.get d k)
        → IsReadable k (sled.get d' k)
          × (read (sled.get d' k) ≡ (if nat_eq id k then none else read (sled.get d k)))
    unfolding clear
    remove-read id d d' k e readable =
        let removed : sled.remove id d ≡ (ok tt, d') = ground arith in
        let got = sled_laws.get-remove d d' id k removed in
        elim (Bool-cases (nat_eq id k)) [
          | inl same ↦
              let gone : sled.get d' k ≡ ok none =
                got ∙ ap (λ c. if c then ok none else sled.get d k) same in
              (inl gone, rw (gone, same) refl)
          | inr other ↦
              let kept : sled.get d' k ≡ sled.get d k =
                got ∙ ap (λ c. if c then ok none else sled.get d k) other in
              (subst (IsReadable k) (sym kept) readable, rw (kept, other) refl)
        ]

    -- Without a time to live, the store implements the abstract memory on the databases whose entries
    -- are all readable, do not expire and stand under the ids of their runs, whatever the clock reads,
    -- if the database and the encoding meet their laws.
    pub sled_memory-Implements : Implements (sled_memory sled codec none) AllReadable view
    unfolding Memory.push
    sled_memory-Implements = record {
      store_ok = λ h w w' g e.
          let went =
            λ (k : Uuid). store-read h (w.clock 0) w.db w'.db k (ran 1 w w' _ (ok tt) e) (g k) in
          (λ k. (went k).0, λ k. (went k).1);
      load_ok = λ id w w' o g e.
          let both = sym (load-read id (w.clock 0) w.db (g id)) ∙ ran 1 w w' _ (ok o) e in
          let same = ap (λ p. p.1) both in
          (
            sym (ok-injective (ap (λ p. p.0) both)),
            λ k. subst (λ d. IsReadable k (sled.get d k)) same (g k),
            λ k. ap (λ d. read (sled.get d k)) (sym same),
          );
      append_ok = λ id message w w' g e.
          let h = Memory.push (or_new id (view w id)) message in
          let saved =
            sym (append-read id message (w.clock 0) (w.clock 1) w.db (g id))
            ∙ ran 2 w w' _ (ok tt) e in
          let went = λ (k : Uuid). store-read h (w.clock 1) w.db w'.db k saved (g k) in
          let own = or_new-run_id id (sled.get w.db id) (g id) in
          (
            λ k. (went k).0,
            λ k. (went k).1 ∙ ap (λ i. if nat_eq i k then some h else view w k) own,
          );
      clear_ok = λ id w w' g e.
          let went = λ (k : Uuid). remove-read id w.db w'.db k (ran 0 w w' _ (ok tt) e) (g k) in
          (λ k. (went k).0, λ k. (went k).1);
    }
