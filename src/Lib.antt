-- ===== src/Lib.antt =====
-- roos, a framework for language model agents: the reasoning loop and what stands around it, as a
-- library of definitions translated from the Rust source, with their theorems.
--
-- The parts. A run of an agent is one call of `ReasoningLoop::run`: it loads the history of the run
-- from a memory, asks a provider for completions, executes the tool calls of each and appends the
-- final message to the memory. `AgentState` tracks the phases. Requests for runs are recorded by
-- the trigger server and the scheduler; a supervisor splits a task and sends the parts over the bus
-- to other agents; all of them are set up from a configuration file. The command line puts the
-- parts together: `roos run` is one run over the in-memory store, `roos serve` the trigger server
-- beside a look at the scheduler every second.
--
-- Which file models what (paths from the repository's root):
--   Core/Types, Error, Agent, Memory, Provider, Tool: crates/roos-core/src/types.rs, error.rs,
--     agent.rs, memory.rs, provider.rs, tool.rs. A trait is a record of its methods.
--   Core/Config: crates/roos-core/src/config.rs, `interpolate_env_vars`, `parse`, `from_file`;
--     Templates, Complete and Decompose hold its theorems.
--   Core/Bus: crates/roos-core/src/bus.rs, `RoosAgentBus`.
--   Core/Supervisor: crates/roos-core/src/supervisor.rs; Subtasks is `parse_subtasks`.
--   Orchestrator/State: crates/roos-orchestrator/src/state.rs, one function per transition.
--   Orchestrator/Validate, Prompt: validate.rs, prompt.rs of the same crate.
--   Orchestrator/Calls: `ReasoningLoop::new` and `execute_tool` in loop_.rs.
--   Orchestrator/Loop: `ReasoningLoop::run` in loop_.rs; `turn` is one round of its `loop`,
--     `observe` its body from the completion on, `on_stop` its `match`, `act` the branch of
--     `ToolUse`. Contract is what a run may assume, Correct, Persists, Keeps and Sends what then
--     holds of it, Transcript what it says to the model.
--   Scheduler: crates/roos-scheduler/src/scheduler.rs, task.rs, error.rs; Delay is the wait in
--     `record_failure`, Store is `save`, `load`, `list_tasks`, Lifecycle the public operations;
--     Lifecycle/Operations has them as values, with the abstract map of tasks that they implement,
--     Lifecycle/Rounds what each is to make of a task.
--   MemoryStore/InMemory, SledStore: crates/roos-memory/src/in_memory.rs, sled_store.rs; Spec is
--     the abstract memory that the trait's comments describe; SledStore/Races has `append` in its
--     two halves.
--   Trigger: crates/roos-trigger/src/auth.rs, webhook.rs, server.rs; `handle` is what `router`
--     answers, Server/Serve the two methods that listen.
--   Providers/Http: what the providers in crates/roos-providers/src share, from the `post` on;
--     OpenAi is `complete_compat` in openai.rs with the providers of openai.rs, groq.rs and
--     qwen.rs, Anthropic and Cohere are anthropic.rs and cohere.rs.
--   Tools/Shell, Fs, Http, Web: the files of crates/roos-tools/src of these names; Input is how
--     each begins.
--   Cli/Run, Serve, New, ListAgents: run.rs, serve.rs, new.rs and list.rs in
--     crates/roos-cli/src/cmd; Cli/Main: crates/roos-cli/src/main.rs.
--   Observability: `init_logging` in crates/roos-observability/src/logging.rs.
--   Macros: crates/roos-macros/src/lib.rs, the attribute `#[tool(...)]`, on what `syn` parses.
--   Base: what the parts share, with the interface of the sled database (Base/Sled) and the order
--     of strings (Base/Order).
--   Examples: the theorems at concrete inputs.
--
-- How it is modelled. A method that changes something is a function on an explicit world that
-- returns its result beside the world it leaves; the world comes back with an error too. Strings
-- are lists of bytes, so that offsets are the source's. Machine integers wrap where the source's
-- would in a release build (`usize`, `u64`, `u32`), and saturate where it says so. A panic that the
-- code can reach is a value: `panicked` in Core/Supervisor and Scheduler. A lock is held for single
-- operations only and is not modelled, but for the poisoned lock that the in-memory store reports.
--
-- Parameters. Other crates' code is never defined: the completion of a provider, tools, the JSON
-- Schema validator and clocks (`Platform`), sled and serde_json (`Sled`, `Codec`, with `SledLaws`,
-- `CodecLaws`), cron and chrono (`Backend`), Tokio's channels (`Channels`), hmac, sha2 and hex
-- (`Crypto`), uuid and axum's extractors (`Web`), reqwest (`Http`, `Client`), tracing (`Tracing`),
-- JSON values (`Value`), the environment, TOML and files (`Host`, `Fs`, `Disk`, `Paths`).
-- `Contract` is what a caller of the loop may choose to assume of a provider, a memory and tools. A
-- `Uuid` is a number, below 2^128 (`IsUuid`) where a theorem needs the bound.
--
-- Fuel. The `loop` of a run takes a number of rounds: `run` gives it `max_steps + 1`, since each
-- round takes one step and the guard stops the run beyond `max_steps`. `interpolate_env_vars` gives
-- its loop one round more than the text has bytes, and each round consumes at least one.
--
-- Events. `roos serve` runs three tasks at once: the trigger server, the looks at the scheduler and
-- the signals. The model takes what happens as a list of events in the order in which they are
-- handled, any list, of which each task gets its share; Cli/Serve/Joint has the lemma by which the
-- three tasks can be read as one. The handlers of the trigger server share its state behind locks,
-- which each takes at most once; the scheduler's database is read by one of the tasks only.
--
-- Not modelled: what is logged (`run_span` and the calls of the tracing crate), the parsing of
-- arguments in crates/roos-cli/src/main.rs by clap, the warnings of `--daemonize`, the sockets
-- under the trigger server, the JSON schemas that are derived for the inputs of tools, the serde
-- attributes of the wire types.
mod Base
pub mod Core
pub mod Orchestrator
pub mod Scheduler
pub mod MemoryStore
pub mod Trigger
pub mod Providers
pub mod Tools
pub mod Cli
pub mod Macros
pub mod Observability
mod Examples
