-- ===== src/Core/Memory.antt =====
-- crates/roos-core/src/memory.rs: conversation histories and the `Memory` trait.
use roos.Base.{ℕ, Text, codes, Bool, Option, none, some, List, [], ◌∷◌, ◌++◌, length}
use roos.Base
use roos.Base.Action.{Action}
use roos.Core.Types.{Uuid}

pub record ConversationMessage : Type 0 where
  pub role : Text
  pub content : Text

unfoldable pub user : Text → ConversationMessage
user content = record { role = codes "user"; content = content }

unfoldable pub assistant : Text → ConversationMessage
assistant content = record { role = codes "assistant"; content = content }

unfoldable pub system : Text → ConversationMessage
system content = record { role = codes "system"; content = content }

pub record ConversationHistory : Type 0 where
  pub run_id : Uuid
  pub messages : List ConversationMessage

unfoldable pub new : Uuid → ConversationHistory
new run_id = record { run_id = run_id; messages = [] }

unfoldable pub push : ConversationHistory → ConversationMessage → ConversationHistory
push h message = record h { messages = h.messages ++ message ∷ [] }

unfoldable pub len : ConversationHistory → ℕ
len h = length h.messages

unfoldable pub is_empty : ConversationHistory → Bool
is_empty h = Base.is_empty h.messages

pub data MemoryError : Type 0 where
  not_found : Uuid → MemoryError
  expired : Uuid → MemoryError
  backend_error : Text → MemoryError
  serialization_error : Text → MemoryError

-- `Display`; how a `Uuid` is written is the argument `show_uuid`.
unfoldable pub display : (Uuid → Text) → MemoryError → Text
unfolding codes
display show_uuid (not_found run_id) = codes "no memory found for run " ++ show_uuid run_id
display show_uuid (expired run_id) =
    codes "memory for run " ++ (show_uuid run_id ++ codes " has expired")
display show_uuid (backend_error source) = codes "memory backend error: " ++ source
display show_uuid (serialization_error source) = codes "memory serialization error: " ++ source

-- `Error::source`.
unfoldable pub source : MemoryError → Option Text
source (backend_error cause) = some cause
source (serialization_error cause) = some cause
source (not_found run_id) = none
source (expired run_id) = none

-- The trait: each method is an action on the world that holds the store.
pub record Memory (W : Type 0) : Type 0 where
  pub store : ConversationHistory → Action W MemoryError (Unit {0})
  pub load : Uuid → Action W MemoryError (Option ConversationHistory)
  pub append : Uuid → ConversationMessage → Action W MemoryError (Unit {0})
  pub clear : Uuid → Action W MemoryError (Unit {0})
