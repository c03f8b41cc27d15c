-- ===== src/MemoryStore/InMemory.antt =====
-- crates/roos-memory/src/in_memory.rs: a `HashMap` behind an `RwLock`.
pub mod Refines
pub mod Unordered
use roos.Base.{Text, codes, Bool, true, false, Option, none, some, Result, ok, err, ℕ_eq}
use roos.Base.Dict
use roos.Base.Dict.{Dict}
use roos.Base.Action.{Action}
use roos.Core.Types.{Uuid}
use roos.Core.Memory
use roos.Core.Memory.{Memory, MemoryError, backend_error, ConversationHistory, ConversationMessage}
use roos.MemoryStore.Spec.{or_new}

-- The lock is poisoned once a thread has panicked while it held it.
pub record InMemoryStore : Type 0 where
  pub inner : Dict Uuid ConversationHistory
  pub poisoned : Bool

abbrev pub new : InMemoryStore
new = record { inner = Dict.empty; poisoned = false }

abbrev pub unless_poisoned :
    {A : Type 0}
    → Bool
    → A × Dict Uuid ConversationHistory
    → InMemoryStore
    → Result MemoryError A × InMemoryStore
unless_poisoned true r s =
    (err (backend_error (codes "poisoned lock: another task failed inside")), s)
unless_poisoned false (a, inner) s = (ok a, record s { inner = inner })

-- `read()` or `write()` with the error that the methods make of a poisoned lock.
abbrev pub locked :
    {A : Type 0}
    → (Dict Uuid ConversationHistory → A × Dict Uuid ConversationHistory)
    → Action InMemoryStore MemoryError A
locked body s = unless_poisoned s.poisoned (body s.inner) s

unfoldable pub store : ConversationHistory → Action InMemoryStore MemoryError (Unit {0})
store history = locked λ inner. (tt, Dict.insert inner history.run_id history)

unfoldable pub load : Uuid → Action InMemoryStore MemoryError (Option ConversationHistory)
load run_id = locked λ inner. (Dict.get inner run_id, inner)

-- `entry(run_id).or_insert_with(…).push(message)`
unfoldable pub append : Uuid → ConversationMessage → Action InMemoryStore MemoryError (Unit {0})
append run_id message = locked λ inner.
    (tt, Dict.insert inner run_id (Memory.push (or_new run_id (Dict.get inner run_id)) message))

unfoldable pub clear : Uuid → Action InMemoryStore MemoryError (Unit {0})
clear run_id = locked λ inner. (tt, Dict.remove inner run_id)

-- The implementation of the trait.
abbrev pub in_memory : Memory InMemoryStore
in_memory = record { store = store; load = load; append = append; clear = clear }
