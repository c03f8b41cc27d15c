-- ===== src/MemoryStore/Agree.antt =====
-- That the two stores of crates/roos-memory, in_memory.rs and sled_store.rs, agree.
use roos.Base.{
  ◌≡◌, refl, sym, ap, ◌∙◌, inl, inr, arith, Option, none, false, List, [], ◌∷◌, ok, Result-cases,
  nat_eq, if◌then◌else◌, ℕ_eq,
}
use roos.Base.Action.{Action, pure, ◌>>◌}
use roos.Base.Dict
use roos.Base.Sled.{Sled, SledLaws, Codec, CodecLaws}
use roos.Core.Memory.{Memory, MemoryError, ConversationHistory}
use roos.Core.Types.{Uuid}
use roos.MemoryStore.InMemory
use roos.MemoryStore.InMemory.{InMemoryStore, load}
use roos.MemoryStore.InMemory.Unordered.{
  Call, store_call, append_call, clear_call, target, made, effect, made-get, made_all, load-get,
  push-with_message,
}
use roos.MemoryStore.SledStore.{StoredEntry, Timed, sled_memory}
use roos.MemoryStore.SledStore.Refines
use roos.MemoryStore.SledStore.Refines.{AllReadable, sled_memory-Implements}
use roos.MemoryStore.Spec.{Histories, Implements}

module _ {W : Type 0} (memory : Memory W) where
  abbrev pub carried : Call → Action W MemoryError (Unit {0})
  carried (store_call h) = memory.store h
  carried (append_call id message) = memory.append id message
  carried (clear_call id) = memory.clear id

  -- The calls in a row, the first error ending them.
  unfoldable pub carried_all : List Call → Action W MemoryError (Unit {0})
  carried_all [] = pure tt
  carried_all (c ∷ calls) = do carried c; carried_all calls

  module _ (Good : W → Type 0) (view : W → Histories) (impl : Implements memory Good view) where
    -- What a call that succeeds does to the view.
    carried-view :
        (c : Call) (w w' : W)
        → Good w
        → carried c w ≡ (ok tt, w')
        → Good w'
          × ((k : Uuid)
              → view w' k
                ≡ (if nat_eq (target c) k then effect c (view w (target c)) else view w k))
    carried-view (store_call h) w w' good e = impl.store_ok h w w' good e
    carried-view (append_call id message) w w' good e =
        let (good', went) = impl.append_ok id message w w' good e in
        (good', λ k. went k ∙ rw (push-with_message id (view w id) message) refl)
    carried-view (clear_call id) w w' good e = impl.clear_ok id w w' good e

    -- The store holds what the view does.
    abbrev Alike : W → InMemoryStore → Type 0
    Alike w s = Good w × (s.poisoned ≡ false) × ((k : Uuid) → view w k ≡ Dict.get s.inner k)

    carried-Alike :
        (c : Call) (w w' : W) (s : InMemoryStore)
        → Alike w s
        → carried c w ≡ (ok tt, w')
        → Alike w' (made c s).1
    carried-Alike c w w' s (good, free, same) e =
        let (good', went) = carried-view c w w' good e in
        (
          good',
          (made-get c s 0 free).0,
          λ k. went k ∙ rw (same (target c), same k) (sym (made-get c s k free).2),
        )

    pub carried_all-Alike :
        (calls : List Call) (w w' : W) (s : InMemoryStore)
        → Alike w s
        → carried_all calls w ≡ (ok tt, w')
        → Alike w' (made_all calls s)
    unfolding carried_all made_all
    carried_all-Alike [] w w' s alike e = let same : w ≡ w' = cc in rw (sym same) alike
    carried_all-Alike (c ∷ calls) w w' s alike e = elim (Result-cases (carried c w).0) [
      | inl (u, p) ↦
          let w1 = (carried c w).1 in
          let first : carried c w ≡ (ok tt, w1) = ap (λ r. (r, w1)) p in
          carried_all-Alike calls w1 w' (made c s).1 (carried-Alike c w w1 s alike first)
            (rw first at e)
      | inr (x, p) ↦ absurd (ground arith)
    ]

module _ {D B : Type 0} (sled : Sled D B) (codec : Codec StoredEntry B) where
  -- The same calls on a new in-memory store and on a sled store without entries and without a time to
  -- live: if all of them, and a `load` behind them, succeed on the sled store, then that `load`
  -- succeeds on the in-memory store too and loads the same history, or none in both, if the database
  -- and the encoding meet their laws.
  pub stores-agree :
      SledLaws sled
      → CodecLaws codec
      → (calls : List Call) (id : Uuid) (o : Option ConversationHistory) (w w' w'' : Timed D)
      → ((k : Uuid) → sled.get w.db k ≡ ok none)
      → carried_all (sled_memory sled codec none) calls w ≡ (ok tt, w')
      → (sled_memory sled codec none).load id w' ≡ (ok o, w'')
      → (load id (made_all calls InMemory.new)).0 ≡ ok o
  unfolding Dict.get
  stores-agree stored encoded calls id o w w' w'' no_entry e loads =
      let impl = sled_memory-Implements sled codec stored encoded in
      let (good, free, same) =
        carried_all-Alike (sled_memory sled codec none) (AllReadable sled codec)
          (Refines.view sled codec) impl calls w w' InMemory.new
          ((λ k. inl (no_entry k)), refl, λ k. rw (no_entry k) refl) e in
      load-get (made_all calls InMemory.new) id free
      ∙ ap ok (sym (same id))
      ∙ ap ok (sym (impl.load_ok id w' w'' o good loads).0)
