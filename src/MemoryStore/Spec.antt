-- ===== src/MemoryStore/Spec.antt =====
-- The abstract memory that the `Memory` trait of crates/roos-core/src/memory.rs describes: a map
-- from run ids to histories.
use roos.Base.{◌≡◌, Option, none, some, ok, nat_eq, if◌then◌else◌}
use roos.Core.Types.{Uuid}
use roos.Core.Memory
use roos.Core.Memory.{Memory, MemoryError, ConversationHistory, ConversationMessage}

abbrev pub Histories : Type 0
Histories = Uuid → Option ConversationHistory

-- `store` overwrites, `append` extends the history or begins one, `clear` deletes.
abbrev pub stored : Histories → ConversationHistory → Histories
stored m h k = if nat_eq h.run_id k then some h else m k

abbrev pub or_new : Uuid → Option ConversationHistory → ConversationHistory
or_new id none = Memory.new id
or_new id (some h) = h

abbrev pub appended : Histories → Uuid → ConversationMessage → Histories
appended m id message k = if nat_eq id k then some (Memory.push (or_new id (m id)) message) else m k

abbrev pub cleared : Histories → Uuid → Histories
cleared m id k = if nat_eq id k then none else m k

-- A backend over the world `W` implements the abstract memory on the worlds in `Good`: each method
-- that succeeds does to the view what the trait says, `load` returns the view of its id and changes
-- no view, and a good world stays good.
pub record Implements {W : Type 0} (memory : Memory W) (Good : W → Type 0) (view : W → Histories)
    : Type 0 where
  pub store_ok :
      (h : ConversationHistory) (w w' : W)
      → Good w
      → memory.store h w ≡ (ok tt, w')
      → Good w' × ((k : Uuid) → view w' k ≡ stored (view w) h k)
  pub load_ok :
      (id : Uuid) (w w' : W) (o : Option ConversationHistory)
      → Good w
      → memory.load id w ≡ (ok o, w')
      → (o ≡ view w id) × Good w' × ((k : Uuid) → view w' k ≡ view w k)
  pub append_ok :
      (id : Uuid) (message : ConversationMessage) (w w' : W)
      → Good w
      → memory.append id message w ≡ (ok tt, w')
      → Good w' × ((k : Uuid) → view w' k ≡ appended (view w) id message k)
  pub clear_ok :
      (id : Uuid) (w w' : W)
      → Good w
      → memory.clear id w ≡ (ok tt, w')
      → Good w' × ((k : Uuid) → view w' k ≡ cleared (view w) id k)
