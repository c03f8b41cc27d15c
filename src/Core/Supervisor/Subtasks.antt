-- ===== src/Core/Supervisor/Subtasks.antt =====
-- `parse_subtasks` of crates/roos-core/src/supervisor.rs. Parsing the JSON array itself is the
-- parameter `from_str`.
use roos.Base.{
  ℕ, suc, ◌+◌, ◌-◌, Text, codes, find, ltb, nat_eq, if◌then◌else◌, Option, none, some, List, [],
  ◌∷◌, ◌++◌, Result, ok, err, map_err, ok_or, ◌>>=◌, Fault, raised, panicked, take, drop,
}
use roos.Core.Error.{AgentError, configuration_error}

pub record Subtask : Type 0 where
  pub agent : Text
  pub task : Text

abbrev pub last_at : Option ℕ → ℕ → ℕ → Option ℕ
last_at (some i) c b = some (suc i)
last_at none c b = if nat_eq b c then some 0 else none

-- `s.rfind(c)` for the byte `c`.
unfoldable pub rfind : ℕ → Text → Option ℕ
rfind c [] = none
rfind c (b ∷ s) = last_at (rfind c s) c b

-- `&content[start..=end]`, which panics if the range runs backwards.
unfoldable pub slice : Text → ℕ → ℕ → Result (Fault AgentError) Text
slice content start end =
    if ltb (end + 1) start then err panicked else ok (take ((end + 1) - start) (drop start content))

unfoldable pub no_array : AgentError
unfolding codes
no_array = configuration_error (codes "supervisor LLM did not return a JSON array")

unfoldable pub unmatched : AgentError
unfolding codes
unmatched = configuration_error (codes "supervisor LLM response has unmatched '['")

unfoldable pub unparsed : Text → AgentError
unfolding codes
unparsed e = configuration_error (codes "failed to parse supervisor subtasks: " ++ e)

unfoldable pub parse_subtasks :
    (Text → Result Text (List Subtask)) → Text → Result (Fault AgentError) (List Subtask)
unfolding find rfind slice
parse_subtasks from_str content = do
  start ← ok_or (find (91 ∷ []) content) (raised no_array)
  end ← ok_or (rfind 93 content) (raised unmatched)
  text ← slice content start end
  map_err (λ e. raised (unparsed e)) (from_str text)
