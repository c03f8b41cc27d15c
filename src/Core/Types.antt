-- ===== src/Core/Types.antt =====
-- crates/roos-core/src/types.rs.
use roos.Base.{ℕ, ◌+◌, ◌%◌, ◌^◌, ◌<◌, ◌≡◌, Text, Option, none, List, arith}
use roos.Base.Dict.{Dict, empty}

-- A `usize` on a 64-bit target: `+` wraps, as in a release build.
abbrev pub usize : ℕ → ℕ
usize n = n % 2 ^ 64

-- A `Uuid` is the number that its 16 bytes spell. What holds of every number holds of the ids, and what
-- asks something of the ids asks it of the numbers with `IsUuid`.
abbrev pub Uuid : Type 0
Uuid = ℕ

abbrev pub IsUuid : Uuid → Type 0
IsUuid id = id < 2 ^ 128

pub record TokenUsage : Type 0 where
  pub input : ℕ
  pub output : ℕ
  pub total : ℕ

abbrev pub no_usage : TokenUsage
no_usage = record { input = 0; output = 0; total = 0 }

-- `add` accumulates `other` into the receiver.
unfoldable pub add : TokenUsage → TokenUsage → TokenUsage
add self other = record {
  input = usize (self.input + other.input);
  output = usize (self.output + other.output);
  total = usize (self.total + other.total);
}

pub record ToolCallRecord (J T : Type 0) : Type 0 where
  pub tool_name : Text
  pub input : J
  pub output : Option Text
  pub error : Option Text
  pub duration_ms : ℕ
  pub step : ℕ
  pub timestamp : T

pub record AgentInput (J : Type 0) : Type 0 where
  pub content : Text
  pub context : Dict Text J
  pub run_id : Uuid
  pub max_steps : Option ℕ

-- `AgentInput::new`; `Uuid::new_v4()` is the argument `run_id`.
unfoldable pub new : {J : Type 0} → Text → Uuid → AgentInput J
new content run_id = record {
  content = content;
  context = empty;
  run_id = run_id;
  max_steps = none;
}

pub record AgentOutput (J T : Type 0) : Type 0 where
  pub content : Text
  pub steps_taken : ℕ
  pub tools_called : List (ToolCallRecord J T)
  pub total_tokens : TokenUsage
  pub run_id : Uuid

-- `total` counts what was sent and what was received.
abbrev pub IsBalanced : TokenUsage → Type 0
IsBalanced u = u.total ≡ usize (u.input + u.output)

pub no_usage-IsBalanced : IsBalanced no_usage
no_usage-IsBalanced = omega arith

pub add-IsBalanced :
    (self other : TokenUsage) → IsBalanced self → IsBalanced other → IsBalanced (add self other)
unfolding add
add-IsBalanced self other h k = omega arith
