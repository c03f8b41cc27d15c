-- ===== src/Examples/Agents.antt =====
-- A bus with one agent, and a supervisor's plans for it.
use roos.Base.{
  ℕ, suc, ◌≡◌, arith, Text, text_Eq, codes, some, none, List, [], ◌∷◌, ◌++◌, Result, ok, err,
  panicked,
}
use roos.Core.Bus.{Channels, RoosAgentBus}
use roos.Core.Provider.{end_turn}
use roos.Core.Types.{AgentInput}
use roos.Core.Supervisor.{SupervisorAgent, run}
use roos.Core.Supervisor.Runs.{Ending, run-Ending}
use roos.Core.Supervisor.Subtasks.{Subtask, parse_subtasks}
use roos.Core.Supervisor.Parsing.{parse_subtasks-panics}

-- Every agent answers at once; the world counts the channels.
abbrev channels : Channels ℕ ℕ ℕ ℕ ℕ ℕ ℕ
channels = record {
  mpsc_channel = λ n w. ((w, w), suc w);
  mpsc_send = λ s m w. (ok tt, w);
  oneshot_channel = λ w. ((w, w), suc w);
  oneshot_recv = λ p w. (ok (codes "done"), w);
  broadcast_channel = λ n w. (w, suc w);
  broadcast_subscribe = λ b w. (w, suc w);
  broadcast_send = λ b e w. (ok 1, w);
}

abbrev bus : RoosAgentBus ℕ ℕ
bus = record { agents = (codes "writer", 0) ∷ []; topics = [] }

abbrev draft : Subtask
draft = record { agent = codes "writer"; task = codes "draft" }

abbrev review : Subtask
review = record { agent = codes "critic"; task = codes "review" }

-- A parser that knows the empty array.
abbrev from_str : Text → Result Text (List Subtask)
from_str text = ok []

parse_subtasks-panics_example :
    parse_subtasks from_str (codes "a" ++ (93 ∷ (codes "b" ++ (91 ∷ codes "c")))) ≡ err panicked
unfolding codes
parse_subtasks-panics_example =
    parse_subtasks-panics from_str (codes "a") (codes "b") (codes "c") ((λ e. ground arith), tt)
      ((λ e. ground arith), tt) ((λ e. ground arith), tt) ((λ e. ground arith), tt) (λ e. cc)

abbrev boss : SupervisorAgent ℕ Text ℕ ℕ
boss = record {
  name = codes "boss";
  description = codes "";
  provider = record {
    complete = λ messages config w. (
      ok (record {
        content = some (codes "[]");
        tool_calls = [];
        usage = record { input = 1; output = 2; total = 3 };
        model = codes "m";
        stop_reason = end_turn;
      }),
      w,
    );
  };
  bus = bus;
  workers = record { name = codes "writer"; description = codes "" } ∷ [];
  model = codes "m";
}

abbrev job : AgentInput Text
job = record { content = codes "write"; context = []; run_id = 5; max_steps = none }

-- A parser that reads one plan for every text.
abbrev planned : Text → Result Text (List Subtask)
planned text = ok (draft ∷ review ∷ [])

run-Ending_example :
    Ending {T = ℕ} channels planned boss job 1
      (run channels planned boss job 1).0
      (run {T = ℕ} channels planned boss job 1).1
run-Ending_example = run-Ending channels planned boss job 1
