-- ===== src/Examples/Histories.antt =====
-- Conversation histories in the two stores.
use roos.Base.{ℕ, none, ◌≡◌, refl, arith, codes, some, [], ◌∷◌, ok, ℕ_eq}
use roos.Base.Dict
use roos.Base.Dict.{Dict}
use roos.Core.Memory
use roos.Core.Memory.{ConversationHistory, ConversationMessage}
use roos.MemoryStore.InMemory.{InMemoryStore}
use roos.MemoryStore.SledStore.{StoredEntry, store, load, append}
use roos.MemoryStore.InMemory
use roos.MemoryStore.InMemory.Unordered.{
  Call, append_call, clear_call, made, hash_map, other_run-commutes,
}
use roos.MemoryStore.SledStore.Expiry.{load-store, append-store, append-renews}
use roos.MemoryStore.SledStore.Races.{interleaved, interleaved_appends-lose}
use roos.Examples.Database.{table, table_laws, plain, plain_laws}

abbrev question : ConversationMessage
question = record { role = codes "user"; content = codes "hi" }

abbrev talk : ConversationHistory
talk = record { run_id = 3; messages = question ∷ [] }

abbrev lasting : ConversationHistory → ℕ → Dict ℕ StoredEntry
lasting h until = (3, record { history = h; expires_at = some until }) ∷ []

load-store_example : load table plain 3 160 (lasting talk 160) ≡ (ok (some talk), lasting talk 160)
unfolding store Dict.insert
load-store_example =
    ((load-store table plain table_laws plain_laws (some 60) talk 100 160 [] (lasting talk 160)
          refl).1
        60 refl (omega arith)).0
      (omega arith)

append-store_example :
    append table plain (some 60) 3 question 230 230 (lasting talk 160)
    ≡ store table plain
        (some 60)
        (Memory.push (Memory.new 3) question)
        230
        (load table plain 3 230 (lasting talk 160)).1
unfolding store Dict.insert
append-store_example =
    (append-store table plain table_laws plain_laws 60 talk question 100 230 230 []
        (lasting talk 160) refl (omega arith)).1
      (omega arith)

append-renews_example :
    load table plain 3 290 (lasting (Memory.push (Memory.new 3) question) 290) ≡ (
      ok (some (Memory.push (Memory.new 3) question)),
      lasting (Memory.push (Memory.new 3) question) 290,
    )
unfolding store append Dict.insert Dict.get Memory.push Memory.new
append-renews_example =
    (append-renews table plain table_laws plain_laws 60 talk question 100 230 230 290 []
        (lasting talk 160) (lasting (Memory.push (Memory.new 3) question) 290) refl refl
        (omega arith) (omega arith) (omega arith)).1
      (omega arith)

abbrev first_call : Call
first_call = append_call 3 question

abbrev second_call : Call
second_call = clear_call 4

other_run-commutes_example :
    ((made second_call (made first_call InMemory.new).1).0 ≡ ok tt)
    × (hash_map (made second_call (made first_call InMemory.new).1).1
        ≡ hash_map (made first_call (made second_call InMemory.new).1).1)
    × (Dict.get (made second_call (made first_call InMemory.new).1).1.inner 3 ≡ some talk)
unfolding Dict.get
other_run-commutes_example =
    let ((_, then_b, _, _), same, holds) =
      other_run-commutes first_call second_call InMemory.new (λ e. absurd (omega (arith, e)))
        refl in
    (then_b, same, holds 3)

abbrev stays : ConversationHistory → Dict ℕ StoredEntry
stays h = (3, record { history = h; expires_at = none }) ∷ []

abbrev answer : ConversationMessage
answer = record { role = codes "assistant"; content = codes "yes" }

interleaved_appends-lose_example :
    load table plain 3 9 (stays (record { run_id = 3; messages = question ∷ answer ∷ [] })) ≡ (
      ok (some (record { run_id = 3; messages = question ∷ answer ∷ [] })),
      stays (record { run_id = 3; messages = question ∷ answer ∷ [] }),
    )
unfolding store append interleaved Dict.insert Dict.remove Dict.get Memory.push
interleaved_appends-lose_example =
    (interleaved_appends-lose table plain table_laws plain_laws talk question answer 0 9 (λ i. i) []
      (stays talk) (stays (Memory.push talk question))
      (stays (Memory.push (Memory.push talk question) answer)) (stays (Memory.push talk answer))
      refl refl refl refl).1
