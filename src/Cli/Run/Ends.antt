-- ===== src/Cli/Run/Ends.antt =====
-- That crates/roos-cli/src/cmd/run.rs ends, and how many requests it sends.
use roos.Base.{
  ℕ, suc, ◌+◌, ◌≤◌, ◌≡◌, refl, sym, ap, ◌∙◌, arith, Text, text_eq, codes, Bool-cases, inl, inr,
  Option, none, some, List, [], ◌∷◌, Result, ok, err, Result-cases, subst, ltb, length, true,
}
use roos.Base.Dict
use roos.Core.Config.{Host, RoosConfig, ConfigError, read, parsed, parse, from_file}
use roos.Core.Config.Decompose.{interpolate-total}
use roos.Core.Error.{
  AgentError, provider_error, context_window_exceeded, memory_error, max_steps_exceeded, tool_error,
  configuration_error,
}
use roos.Core.Provider.{LlmProvider, Message, CompletionConfig}
use roos.Core.Types
use roos.Core.Types.{Uuid, AgentOutput}
use roos.MemoryStore.InMemory
use roos.Orchestrator.Calls
use roos.Orchestrator.Calls.{Platform}
use roos.Orchestrator.Loop
use roos.Orchestrator.Loop.Contract.{Contract, IsGood, IsGoodOutput}
use roos.Orchestrator.Loop.Correct.{run-IsGood}
use roos.Orchestrator.Loop.Rule.{Returns}
use roos.Providers.Anthropic
use roos.Providers.Anthropic.{anthropic_provider}
use roos.Providers.Http.Counts.{Counts, sent-exchange}
use roos.Providers.OpenAi
use roos.Providers.OpenAi.{openai_provider}
use roos.Cli.Run.{
  Session, Net, printed, statistics, select_provider, agent_loop, reported, unwrap_or_empty,
  run_with, configured, completion_config, run,
}

-- Reading and parsing a configuration file ends.
from_file-ends :
    (host : Host) (path : Text)
    → (r : Result ConfigError RoosConfig) × (from_file host path ≡ some r)
unfolding from_file parse
from_file-ends host path = elim (Result-cases (host.read_to_string path)) [
  | inl (raw, there) ↦
      let (r, runs) = (interpolate-total host.env_var raw).0 in
      (_, ap (read host) there ∙ ap (parsed host) runs)
  | inr (e, lost) ↦ (_, ap (read host) lost)
]

module _ {W : Type 0} (sent : W → ℕ) where
  -- Each completion sends one request.
  abbrev Sends : {J : Type 0} → LlmProvider W J → Type 0
  Sends {J} provider =
      (messages : List Message) (config : CompletionConfig J) (v : W)
      → sent (provider.complete messages config v).1 ≡ suc (sent v)

module _ {W H J T C : Type 0} (net : Net W H J) (env : Platform (Session W) J T C)
    (sent : W → ℕ) where
  -- The run of the loop that the command makes: the provider is the one that the configuration names,
  -- the store is new, and the input has the default limit.
  abbrev pub loop_run :
      RoosConfig
      → LlmProvider W J
      → Text
      → Uuid
      → W
      → Option (Result AgentError (AgentOutput J T) × Session W)
  loop_run cfg provider text id w =
      Loop.run env (agent_loop net env provider) (Types.new text id) (completion_config cfg)
        (record { outside = w; store = InMemory.new })

  -- The lines are those of the output of that run: its content, an empty line and its statistics. It
  -- took between one and ten steps, and as many requests were sent.
  pub record IsPrinted (cfg : RoosConfig) (text : Text) (id : Uuid) (w : W) (lines : List Text)
      (w' : W) : Type 0 where
    pub provider : LlmProvider W J
    pub chosen : select_provider net env cfg ≡ some provider
    pub output : AgentOutput J T
    pub session : Session W
    pub ran : loop_run cfg provider text id w ≡ some (ok output, session)
    pub left : w' ≡ session.outside
    pub some_step : 1 ≤ output.steps_taken
    pub step_bound : output.steps_taken ≤ 10
    pub requests : sent w' ≡ sent w + output.steps_taken
    pub shown :
        lines
        ≡ output.content
          ∷ []
          ∷ statistics output.steps_taken (length output.tools_called) output.total_tokens.total
          ∷ []

  -- The command ends, with at most ten requests. If it succeeds, a configuration was read and parsed,
  -- and its lines are those of the output of its run.
  abbrev pub Ended :
      Option (Result ConfigError RoosConfig)
      → Text
      → Uuid
      → W
      → Option (Result Text (List Text) × W)
      → Type 0
  Ended loaded text id w none = ⊥
  Ended loaded text id w (some (err e, w')) = (sent w ≤ sent w') × (sent w' ≤ sent w + 10)
  Ended loaded text id w (some (ok lines, w')) =
      (cfg : RoosConfig) × (loaded ≡ some (ok cfg)) × IsPrinted cfg text id w lines w'

  abbrev Sent : W → ℕ → Session W → Type 0
  Sent w n s = sent s.outside ≡ sent w + n

  contract :
      (w : W) (provider : LlmProvider W J)
      → Sends sent provider
      → Contract env (agent_loop net env provider) (Sent w) (λ u. Unit {0})
  unfolding agent_loop Calls.new Calls.collect Dict.get
  contract w provider sends = record {
    completes = λ n messages config s p. omega (arith, sends messages config s.outside, p);
    uses = λ messages config s response u h q. tt;
    unused = tt;
    tools_keep = λ n call tool s permitted p. let found = permitted.0 in absurd (cc);
    loads = λ n id s p. p;
    appends = λ n id m s p. p;
  }

  module _ (cfg : RoosConfig) (text : Text) (id : Uuid) (w : W) (provider : LlmProvider W J)
      (chosen : select_provider net env cfg ≡ some provider) where
    abbrev loaded : Option (Result ConfigError RoosConfig)
    loaded = some (ok cfg)

    output-IsPrinted :
        (out : AgentOutput J T) (s : Session W)
        → loop_run cfg provider text id w ≡ some (ok out, s)
        → IsGoodOutput (Sent w) (λ u. Unit {0}) 10 id out s
        → IsPrinted cfg text id w (printed out) s.outside
    output-IsPrinted out s ran h =
        let some_step = h.some_step in
        let some_steps : ltb 0 out.steps_taken ≡ true = ground (arith, some_step) in
        record {
          provider = provider;
          chosen = chosen;
          output = out;
          session = s;
          ran = ran;
          left = refl;
          some_step = h.some_step;
          step_bound = h.step_bound;
          requests = h.completions;
          shown = rw some_steps refl;
        }

    reported-Ended :
        (o : Option (Result AgentError (AgentOutput J T) × Session W))
        → loop_run cfg provider text id w ≡ o
        → Returns (IsGood (Sent w) (λ u. Unit {0}) 10 id) o
        → Ended loaded text id w (reported net env o)
    reported-Ended none e h = h
    reported-Ended (some (ok out, s)) e h = (cfg, refl, output-IsPrinted out s e h)
    reported-Ended (some (err (provider_error msg), s)) e (n, l, p) =
        (omega (arith, l, p), omega (arith, l, p))
    reported-Ended (some (err context_window_exceeded, s)) e (n, l, p) =
        (omega (arith, l, p), omega (arith, l, p))
    reported-Ended (some (err (memory_error msg), s)) e (n, l, p) =
        (omega (arith, l, p), omega (arith, l, p))
    reported-Ended (some (err (max_steps_exceeded n), s)) e (l, p) =
        (omega (arith, p), omega (arith, p))
    reported-Ended (some (err (tool_error name msg), s)) e h = absurd h
    reported-Ended (some (err (configuration_error msg), s)) e h = absurd h

  run_with-Ended :
      (o : Option (LlmProvider W J)) (cfg : RoosConfig) (text : Text) (id : Uuid) (w : W)
      → select_provider net env cfg ≡ o
      → ((provider : LlmProvider W J) → o ≡ some provider → Sends sent provider)
      → Ended (some (ok cfg)) text id w (run_with net env o cfg text id w)
  unfolding Types.new
  run_with-Ended none cfg text id w chosen h = (omega arith, omega arith)
  run_with-Ended (some provider) cfg text id w chosen h =
      reported-Ended cfg text id w provider chosen (loop_run cfg provider text id w) refl (
        run-IsGood env (agent_loop net env provider) (Sent w) (λ u. Unit {0})
          (contract w provider (h provider refl)) (Types.new text id) (completion_config cfg)
          (record { outside = w; store = InMemory.new }) (omega arith) (omega arith))

  module _ (counts : Counts net.anthropic sent) (counts' : Counts net.openai sent) where
    anthropic-Sends : (api_key : Text) → Sends sent (anthropic_provider net.anthropic api_key)
    unfolding Anthropic.complete
    anthropic-Sends api_key messages config v =
        sent-exchange net.anthropic Anthropic.map_response sent counts _ _ _ v

    openai-Sends :
        (api_key : Text) → Sends sent (openai_provider net.openai net.from_str net.null api_key)
    unfolding OpenAi.complete_compat openai_provider
    openai-Sends api_key messages config v =
        sent-exchange net.openai (OpenAi.map_response net.from_str net.null) sent counts' _ _ _ v

    select_provider-Sends :
        (cfg : RoosConfig) (provider : LlmProvider W J)
        → select_provider net env cfg ≡ some provider
        → Sends sent provider
    unfolding select_provider
    select_provider-Sends cfg provider h =
        let kind = cfg.provider.provider_type in
        let api_key = unwrap_or_empty cfg.provider.api_key in
        elim (Bool-cases (text_eq kind (codes "anthropic"))) [
          | inl first ↦
              let chosen : anthropic_provider net.anthropic api_key ≡ provider =
                ground (arith, first) in
              subst (Sends sent) chosen (anthropic-Sends api_key)
          | inr not_first ↦ elim (Bool-cases (text_eq kind (codes "openai"))) [
            | inl second ↦
                let chosen : openai_provider net.openai net.from_str net.null api_key ≡ provider =
                  ground (arith, not_first, second) in
                subst (Sends sent) chosen (openai-Sends api_key)
            | inr neither ↦ absurd (ground (arith, not_first, neither))
          ]
        ]

    configured-Ended :
        (path text : Text) (id : Uuid) (w : W) (r : Result ConfigError RoosConfig)
        → Ended (some r) text id w (configured net env path text id w (some r))
    configured-Ended path text id w (err e) = (omega arith, omega arith)
    configured-Ended path text id w (ok cfg) =
        run_with-Ended (select_provider net env cfg) cfg text id w refl (select_provider-Sends cfg)

    -- `roos run` ends for every file, environment and server, and sends at most ten requests, whatever
    -- `max_steps` the file has, where each `post` counts as one request and reading a body as none. If
    -- it succeeds, the file was loaded, the run of the loop with the provider that it names and the
    -- input text gave an output, and what is printed is the content of that output, an empty line and
    -- the statistics of that output, whose number of steps is the number of requests that were sent,
    -- from 1 to 10.
    pub run-Ended :
        (host : Host) (path text : Text) (id : Uuid) (w : W)
        → Ended (from_file host path) text id w (run net env host path text id w)
    unfolding run
    run-Ended host path text id w =
        let (r, read) = from_file-ends host path in
        subst (λ o. Ended o text id w (configured net env path text id w o)) (sym read)
          (configured-Ended path text id w r)
