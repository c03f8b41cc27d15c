-- ===== src/Examples/Recall.antt =====
-- Two runs with one id over the in-memory store. The world outside the store holds what was sent.
use roos.Base.{ℕ, refl, ap, arith, Text, codes, some, List, [], ◌∷◌, ◌++◌, ok}
use roos.Base.Dict
use roos.Core.Memory
use roos.Core.Provider
use roos.Core.Provider.{LlmProvider, CompletionConfig, CompletionResponse, end_turn, Message}
use roos.Core.Types.{AgentInput, AgentOutput, add}
use roos.Cli.Run.{Session, session_provider, session_memory}
use roos.MemoryStore.InMemory
use roos.MemoryStore.InMemory.Refines
use roos.MemoryStore.InMemory.Refines.{IsUsable, in_memory-Implements}
use roos.MemoryStore.Spec.{Histories, Implements}
use roos.Orchestrator.Calls.{Platform, ReasoningLoop}
use roos.Orchestrator.State
use roos.Orchestrator.Loop.{initial, finish_turn, observe, turn, loop, run}
use roos.Orchestrator.Loop.Persists.{Backed}
use roos.Orchestrator.Loop.Recalls.{second_run-Said}
use roos.Orchestrator.Loop.Rule.{Returns}
use roos.Orchestrator.Loop.Transcript.{Logs, Said}

abbrev World : Type 0
World = Session (List (List Message))

abbrev start : World
start = record { outside = []; store = InMemory.new }

abbrev env : Platform World Text ℕ Text
env = record {
  utc_now = λ w. 0;
  elapsed_ms = λ v w. 0;
  schemas = record { compile = ok; validate = λ c j. ok tt };
  show_uuid = λ id. codes "run";
}

abbrev reply : CompletionResponse Text
reply = record {
  content = some (codes "done");
  tool_calls = [];
  usage = record { input = 1; output = 2; total = 3 };
  model = codes "m";
  stop_reason = end_turn;
}

abbrev provider : LlmProvider (List (List Message)) Text
provider = record { complete = λ messages config w. (ok reply, w ++ messages ∷ []) }

abbrev lp : ReasoningLoop World Text
lp = record { provider = session_provider provider; tools = []; memory = session_memory }

abbrev config : CompletionConfig Text
config = Provider.new (codes "m")

abbrev Usable : World → Type 0
Usable s = IsUsable s.store

abbrev view : World → Histories
view s = Refines.view s.store

session_memory-Implements : Implements session_memory Usable view
session_memory-Implements = record {
  store_ok = λ h w w' g e.
      in_memory-Implements.store_ok h w.store w'.store g (ap (λ x. (x.0, x.1.store)) e);
  load_ok = λ id w w' o g e.
      in_memory-Implements.load_ok id w.store w'.store o g (ap (λ x. (x.0, x.1.store)) e);
  append_ok = λ id m w w' g e.
      in_memory-Implements.append_ok id m w.store w'.store g (ap (λ x. (x.0, x.1.store)) e);
  clear_ok = λ id w w' g e.
      in_memory-Implements.clear_ok id w.store w'.store g (ap (λ x. (x.0, x.1.store)) e);
}

back : Backed env lp Usable view
unfolding Dict.get
back = record {
  memory = session_memory-Implements;
  completes = λ m messages config w h. h;
  tools_keep = λ m c tool w permitted h. let found = permitted.0 in absurd (cc);
}

logs : Logs env lp (λ s. s.outside)
unfolding Dict.get
logs = record {
  completes = λ messages config w. refl;
  loads = λ id w. refl;
  appends = λ id m w. refl;
  tools_keep = λ sent c tool w permitted h. let found = permitted.0 in absurd (cc);
}

abbrev question : Text → AgentInput Text
question content = record { content = content; context = []; run_id = 5; max_steps = some 3 }

abbrev output : AgentOutput Text ℕ
output = record {
  content = codes "done";
  steps_taken = 1;
  tools_called = [];
  total_tokens = record { input = 1; output = 2; total = 3 };
  run_id = 5;
}

second_run-Said_example :
    Returns
      (Said env lp config
        (Provider.assistant (codes "done") ∷ Provider.user (codes "again") ∷ [])
        (λ s. s.outside)
        ((Provider.user (codes "hi") ∷ []) ∷ []))
      (run env lp (question (codes "again")) config (record start {
        outside = (Provider.user (codes "hi") ∷ []) ∷ [];
        store = record InMemory.new {
          inner = (5, record { run_id = 5; messages = Memory.assistant (codes "done") ∷ [] }) ∷ [];
        };
      }))
unfolding run loop turn observe finish_turn initial State.start State.step InMemory.load
    InMemory.append codes add Dict.get Dict.insert Memory.push Memory.new
second_run-Said_example =
    second_run-Said env lp Usable view back (λ s. s.outside) logs config (question (codes "hi"))
      (question (codes "again")) output start _ _ _ (omega arith) (omega arith) refl refl refl refl
