-- ===== src/MemoryStore/InMemory/Refines.antt =====
-- The in-memory store implements the abstract memory.
use roos.Base.{◌≡◌, false, arith, ℕ_eq, is_ok, true, not}
use roos.Base.Dict
use roos.Base.Dict.{get-insert, get-remove}
use roos.Core.Types.{Uuid}
use roos.Core.Memory
use roos.Core.Memory.{ConversationHistory, ConversationMessage}
use roos.MemoryStore.Spec.{Histories, Implements, or_new}
use roos.MemoryStore.InMemory.{InMemoryStore, store, load, append, clear, in_memory}

abbrev pub IsUsable : InMemoryStore → Type 0
IsUsable s = s.poisoned ≡ false

abbrev pub view : InMemoryStore → Histories
view s k = Dict.get s.inner k

-- While the lock is not poisoned, the in-memory store implements the abstract memory.
pub in_memory-Implements : Implements in_memory IsUsable view
unfolding store load append clear
in_memory-Implements = record {
  store_ok = λ h w w' g e. (ground arith, λ k. ground (arith, get-insert w.inner h.run_id k h));
  load_ok = λ id w w' o g e. (ground arith, ground arith, λ k. ground arith);
  append_ok = λ id message w w' g e. (
    ground arith,
    λ k.
        ground
          (arith, get-insert w.inner id k (Memory.push (or_new id (Dict.get w.inner id)) message)),
  );
  clear_ok = λ id w w' g e. (ground arith, λ k. ground (arith, get-remove w.inner id k));
}

-- On a usable store every method succeeds, and on a poisoned one every method fails and changes
-- nothing.
in_memory_results :
    (s : InMemoryStore) (h : ConversationHistory) (id : Uuid) (m : ConversationMessage)
    → (is_ok (store h s).0 ≡ not s.poisoned)
      × (is_ok (load id s).0 ≡ not s.poisoned)
      × (is_ok (append id m s).0 ≡ not s.poisoned)
      × (is_ok (clear id s).0 ≡ not s.poisoned)
      × (s.poisoned ≡ true
          → ((store h s).1 ≡ s)
            × ((load id s).1 ≡ s)
            × ((append id m s).1 ≡ s)
            × ((clear id s).1 ≡ s))
unfolding store load append clear
in_memory_results s h id m = ground arith
