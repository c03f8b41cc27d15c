-- ===== src/Examples/Memories.antt =====
-- A run of the reasoning loop over the sled store without a time to live.
use roos.Base.{ℕ, refl, arith, Text, codes, ◌≡◌, none, some, [], ◌∷◌, inl, ok}
use roos.Base.Dict
use roos.Base.Dict.{Dict}
use roos.Core.Types.{AgentInput}
use roos.Core.Memory
use roos.Core.Memory.{ConversationHistory, ConversationMessage}
use roos.Core.Provider
use roos.Core.Provider.{CompletionResponse, end_turn}
use roos.MemoryStore.Agree.{carried_all, stores-agree}
use roos.MemoryStore.InMemory
use roos.MemoryStore.InMemory.{load}
use roos.MemoryStore.InMemory.Unordered.{made_all}
use roos.MemoryStore.InMemory.Unordered.{append_call}
use roos.MemoryStore.Spec.{Implements}
use roos.MemoryStore.SledStore.{StoredEntry, Timed, append, sled_memory}
use roos.MemoryStore.SledStore.Refines.{AllReadable, view, sled_memory-Implements}
use roos.Orchestrator.Calls.{Platform, ReasoningLoop}
use roos.Orchestrator.Loop.{run}
use roos.Orchestrator.Loop.Persists.{Backed, Persisted, run-Persisted}
use roos.Orchestrator.Loop.Rule.{Returns}
use roos.Examples.Database.{table, table_laws, plain, plain_laws}

abbrev World : Type 0
World = Timed (Dict ℕ StoredEntry)

abbrev empty : World
empty = record { db = []; clock = λ i. i }

abbrev all_readable : AllReadable table plain empty
unfolding Dict.get
all_readable k = inl refl

sled_memory-Implements_example :
    Implements (sled_memory table plain none) (AllReadable table plain) (view table plain)
sled_memory-Implements_example = sled_memory-Implements table plain table_laws plain_laws

abbrev env : Platform World Text ℕ Text
env = record {
  utc_now = λ w. 0;
  elapsed_ms = λ v w. 0;
  schemas = record { compile = ok; validate = λ c j. ok tt };
  show_uuid = λ id. codes "run";
}

abbrev reply : CompletionResponse Text
reply = record {
  content = some (codes "done");
  tool_calls = [];
  usage = record { input = 1; output = 2; total = 3 };
  model = codes "m";
  stop_reason = end_turn;
}

abbrev lp : ReasoningLoop World Text
lp = record {
  provider = record { complete = λ messages config w. (ok reply, w) };
  tools = [];
  memory = sled_memory table plain none;
}

back : Backed env lp (AllReadable table plain) (view table plain)
unfolding Dict.get
back = record {
  memory = sled_memory-Implements table plain table_laws plain_laws;
  completes = λ m messages config w h. h;
  tools_keep = λ m c tool w permitted h. let found = permitted.0 in absurd (cc);
}

abbrev input : AgentInput Text
input = record { content = codes "hi"; context = []; run_id = 5; max_steps = some 3 }

run-Persisted_example :
    Returns
      (Persisted (AllReadable table plain) (view table plain) (view table plain empty) 5)
      (run env lp input (Provider.new (codes "m")) empty)
run-Persisted_example =
    run-Persisted env lp (AllReadable table plain) (view table plain) back input
      (Provider.new (codes "m")) empty (omega arith) all_readable

abbrev message : ConversationMessage
message = record { role = codes "user"; content = codes "hi" }

abbrev talk : ConversationHistory
talk = record { run_id = 5; messages = message ∷ [] }

stores-agree_example :
    (load 5 (made_all (append_call 5 message ∷ []) InMemory.new)).0 ≡ ok (some talk)
unfolding carried_all Dict.get append Dict.insert Memory.push Memory.new
stores-agree_example =
    stores-agree table plain table_laws plain_laws (append_call 5 message ∷ []) 5 (some talk) empty
      _ _ (λ k. refl) refl refl
