-- ===== src/MemoryStore/SledStore.antt =====
-- crates/roos-memory/src/sled_store.rs: a persistent store with a time to live. What `now_secs()`
-- returns is the argument `now`; `append` reads the clock twice.
pub mod Expiry
pub mod Refines
pub mod Races
use roos.Base.{
  ℕ, ◌+◌, ◌%◌, ◌^◌, Text, Bool, true, false, ltb, if◌then◌else◌, Option, none, some, Result, ok,
  err, map_err,
}
use roos.Base.Sled.{Sled, Codec}
use roos.Base.Action.{Action, map_throw, lift, pure, ◌>>=◌, ◌>>◌}
use roos.Core.Types.{Uuid}
use roos.Core.Memory
use roos.Core.Memory.{
  Memory, MemoryError, expired, backend_error, serialization_error, ConversationHistory,
  ConversationMessage,
}

pub record StoredEntry : Type 0 where
  pub history : ConversationHistory
  pub expires_at : Option ℕ

-- A `u64` sum wraps, as in a release build.
abbrev pub u64 : ℕ → ℕ
u64 n = n % 2 ^ 64

abbrev pub expiry : ℕ → Option ℕ → Option ℕ
expiry now none = none
expiry now (some s) = some (u64 (now + s))

abbrev pub is_expired : ℕ → Option ℕ → Bool
is_expired now none = false
is_expired now (some exp) = ltb exp now

module _ {D B : Type 0} (sled : Sled D B) (codec : Codec StoredEntry B) where
  module _ (ttl_secs : Option ℕ) where
    unfoldable pub make_entry : ConversationHistory → ℕ → StoredEntry
    make_entry history now = record { history = history; expires_at = expiry now ttl_secs }

    unfoldable pub store : ConversationHistory → ℕ → Action D MemoryError (Unit {0})
    unfolding make_entry
    store history now = do
      bytes ← lift (map_err serialization_error (codec.to_vec (make_entry history now)))
      map_throw backend_error (sled.insert history.run_id bytes)
      pure tt

  -- The lazy eviction: whether the removal succeeds is ignored.
  abbrev pub fresh : Uuid → ℕ → StoredEntry → Action D MemoryError (Option ConversationHistory)
  fresh id now entry d =
      if is_expired now entry.expires_at
      then (err (expired id), (sled.remove id d).1)
      else (ok (some entry.history), d)

  abbrev pub decoded :
      Uuid → ℕ → Result Text (Option B) → Action D MemoryError (Option ConversationHistory)
  decoded id now (err e) d = (err (backend_error e), d)
  decoded id now (ok none) d = (ok none, d)
  decoded id now (ok (some bytes)) d =
      (do entry ← lift (map_err serialization_error (codec.from_slice bytes)); fresh id now entry) d

  unfoldable pub load : Uuid → ℕ → Action D MemoryError (Option ConversationHistory)
  load id now d = decoded id now (sled.get d id) d

  -- The `match self.load(id).await` of `append`.
  abbrev pub history_or_new :
      Uuid
      → Result MemoryError (Option ConversationHistory)
      → Result MemoryError ConversationHistory
  history_or_new id (ok (some h)) = ok h
  history_or_new id (ok none) = ok (Memory.new id)
  history_or_new id (err (expired run_id)) = ok (Memory.new id)
  history_or_new id (err e) = err e

  module _ (ttl_secs : Option ℕ) where
    abbrev pub push_and_store :
        Result MemoryError ConversationHistory
        → ConversationMessage
        → ℕ
        → Action D MemoryError (Unit {0})
    push_and_store (err e) message now d = (err e, d)
    push_and_store (ok h) message now d = store ttl_secs (Memory.push h message) now d

    unfoldable pub append : Uuid → ConversationMessage → ℕ → ℕ → Action D MemoryError (Unit {0})
    unfolding load store
    append id message now now' d =
        let (r, d') = load id now d in push_and_store (history_or_new id r) message now' d'

  unfoldable pub clear : Uuid → Action D MemoryError (Unit {0})
  clear id = do map_throw backend_error (sled.remove id); pure tt

-- A database with the clock readings to come.
pub record Timed (D : Type 0) : Type 0 where
  pub db : D
  pub clock : ℕ → ℕ

module _ {D : Type 0} where
  abbrev pub later : ℕ → Timed D → D → Timed D
  later n w d = record { db = d; clock = λ i. w.clock (n + i) }

  -- A method that takes `n` readings.
  abbrev pub timed :
      {A : Type 0} → ℕ → ((ℕ → ℕ) → Action D MemoryError A) → Action (Timed D) MemoryError A
  timed n body w = let (r, d) = body w.clock w.db in (r, later n w d)

module _ {D B : Type 0} (sled : Sled D B) (codec : Codec StoredEntry B) (ttl_secs : Option ℕ) where
  -- The implementation of the trait.
  abbrev pub sled_memory : Memory (Timed D)
  sled_memory = record {
    store = λ history. timed 1 λ clock. store sled codec ttl_secs history (clock 0);
    load = λ id. timed 1 λ clock. load sled codec id (clock 0);
    append =
        λ id message. timed 2 λ clock. append sled codec ttl_secs id message (clock 0) (clock 1);
    clear = λ id. timed 0 λ clock. clear sled codec id;
  }

pub record SledMemory (D : Type 0) : Type 0 where
  pub db : D
  pub ttl_secs : Option ℕ

-- `sled::open` is the parameter `sled_open`.
abbrev pub open_at :
    {D : Type 0} → (Text → Result Text D) → Text → Result MemoryError (SledMemory D)
open_at sled_open path = elim (sled_open path) [
  | ok db ↦ ok (record { db = db; ttl_secs = none })
  | err e ↦ err (backend_error e)
]

abbrev pub with_ttl : {D : Type 0} → ℕ → SledMemory D → SledMemory D
with_ttl secs self = record self { ttl_secs = some secs }
