-- ===== src/Core/Supervisor.antt =====
-- crates/roos-core/src/supervisor.rs: a supervisor that asks a model to split a task, sends the parts
-- to workers on the bus and joins the replies. Parsing the JSON array is the parameter `from_str`.
pub mod Subtasks
pub mod Parsing
pub mod Replies
pub mod Runs
use roos.Base.{
  ℕ, zero, suc, ◌+◌, ◌-◌, Text, codes, find, join, ltb, nat_eq, if◌then◌else◌, Option, none, some,
  List, [], ◌∷◌, ◌++◌, map, Result, ok, err, map_err, ok_or, Fault, raised, panicked, length, take,
  drop,
}
use roos.Base.Action
use roos.Base.Action.{Action, pure, lift, map_throw, ◌>>=◌}
use roos.Core.Agent.{Agent}
use roos.Core.Bus
use roos.Core.Bus.{Channels, RoosAgentBus}
use roos.Core.Error.{AgentError, provider_error, configuration_error}
use roos.Core.Provider
use roos.Core.Provider.{CompletionConfig, CompletionResponse, LlmProvider}
use roos.Core.Supervisor.Subtasks.{Subtask, parse_subtasks}
use roos.Core.Types.{AgentInput, AgentOutput}

pub record WorkerSpec : Type 0 where
  pub name : Text
  pub description : Text

pub record SupervisorAgent (W J S B : Type 0) : Type 0 where
  pub name : Text
  pub description : Text
  pub provider : LlmProvider W J
  pub bus : RoosAgentBus S B
  pub workers : List WorkerSpec
  pub model : Text

abbrev pub newline : Text
newline = 10 ∷ []

unfoldable pub worker_list : List WorkerSpec → Text
unfolding codes join
worker_list workers =
    join newline (map (λ w. codes "- " ++ (w.name ++ (codes ": " ++ w.description))) workers)

abbrev pub quoted : Text → Text
quoted t = 34 ∷ (t ++ (34 ∷ []))

module _ {W J S B : Type 0} where
  unfoldable pub new :
      Text → Text → LlmProvider W J → RoosAgentBus S B → Text → SupervisorAgent W J S B
  new name description provider bus model = record {
    name = name;
    description = description;
    provider = provider;
    bus = bus;
    workers = [];
    model = model;
  }

  unfoldable pub with_worker : Text → Text → SupervisorAgent W J S B → SupervisorAgent W J S B
  with_worker name description self = record self {
    workers = self.workers ++ (record { name = name; description = description } ∷ []);
  }

  -- The pieces of the format string, one after another. A quotation mark is the byte 34.
  unfoldable pub system_prompt : SupervisorAgent W J S B → Text
  unfolding codes worker_list join
  system_prompt self = join [] (
      codes "You are a supervisor agent. Decompose the user's task into subtasks "
      ∷ codes "and assign each to the most suitable worker."
      ∷ newline
      ∷ newline
      ∷ codes "Available workers:"
      ∷ newline
      ∷ worker_list self.workers
      ∷ newline
      ∷ newline
      ∷ codes "Reply ONLY with a JSON array (no markdown, no prose):"
      ∷ newline
      ∷ codes "[{"
      ∷ quoted (codes "agent")
      ∷ codes ":"
      ∷ quoted (codes "<worker_name>")
      ∷ codes ","
      ∷ quoted (codes "task")
      ∷ codes ":"
      ∷ quoted (codes "<subtask_description>")
      ∷ codes "}]"
      ∷ [])

-- One line of the answer.
unfoldable pub report : Subtask → Text → Text
unfolding codes
report st reply = codes "[" ++ (st.agent ++ (codes "]: " ++ reply))

unfoldable pub no_content : AgentError
unfolding codes
no_content = configuration_error (codes "supervisor LLM returned no text content")

module _ {W S V R P B L : Type 0} (channels : Channels W S V R P B L) where
  -- The loop over the subtasks: the first that fails ends it.
  unfoldable pub dispatch :
      RoosAgentBus S B → List Subtask → Action W (Fault AgentError) (List Text)
  dispatch bus [] = pure []
  dispatch bus (st ∷ sts) = do
    reply ←
        map_throw (λ e. raised (provider_error (Bus.display e)))
          (Bus.send channels bus st.agent st.task)
    replies ← dispatch bus sts
    pure (report st reply ∷ replies)

unfoldable pub request : {W J S B : Type 0} → SupervisorAgent W J S B → CompletionConfig J
request self = record (Provider.new self.model) { system = some (system_prompt self) }

module _ {W J S V R P B L T : Type 0} (channels : Channels W S V R P B L) where
  unfoldable pub run :
      (Text → Result Text (List Subtask))
      → SupervisorAgent W J S B
      → AgentInput J
      → Action W (Fault AgentError) (AgentOutput J T)
  unfolding dispatch request
  run from_str self input = do
    response ←
        map_throw (λ e. raised (provider_error (Provider.display e)))
          (self.provider.complete (Provider.user input.content ∷ []) (request self))
    text ← lift (ok_or response.content (raised no_content))
    subtasks ← lift (parse_subtasks from_str text)
    results ← dispatch channels self.bus subtasks
    pure (record {
      content = join newline results;
      steps_taken = length subtasks;
      tools_called = [];
      total_tokens = response.usage;
      run_id = input.run_id;
    })

  -- `impl Agent for SupervisorAgent`.
  unfoldable pub supervisor_agent :
      (Text → Result Text (List Subtask)) → SupervisorAgent W J S B → Agent W J T
  supervisor_agent from_str self = record {
    name = self.name;
    description = self.description;
    run = run from_str self;
  }
