-- ===== src/Orchestrator/Prompt.antt =====
-- crates/roos-orchestrator/src/prompt.rs: the system prompt of an agent. `to_string_pretty` is the
-- parameter of that name.
pub mod Catalogue
use roos.Base.{Text, codes, join, if◌then◌else◌, is_empty, Option, none, some, List, [], ◌∷◌, ◌++◌}
use roos.Core.Provider.{CompletionConfig}

pub record ToolEntry (J : Type 0) : Type 0 where
  pub name : Text
  pub description : Text
  pub schema : J

pub record SystemPromptBuilder (J : Type 0) : Type 0 where
  pub agent_name : Text
  pub agent_description : Text
  pub tools : List (ToolEntry J)
  pub custom : Option Text

abbrev pub newline : Text
newline = 10 ∷ []

-- Three backquotes.
abbrev fence : Text
fence = 96 ∷ 96 ∷ 96 ∷ []

unfoldable pub instructions : Option Text → Text
unfolding codes
instructions (some text) = text
instructions none =
    codes "Think step-by-step. Use the available tools when needed. "
    ++ codes "Respond concisely once you have a final answer."

module _ {J : Type 0} where
  unfoldable pub new : Text → Text → SystemPromptBuilder J
  new name description = record {
    agent_name = name;
    agent_description = description;
    tools = [];
    custom = none;
  }

  unfoldable pub with_tool : Text → Text → J → SystemPromptBuilder J → SystemPromptBuilder J
  with_tool name description schema self = record self {
    tools = self.tools ++ (record { name = name; description = description; schema = schema } ∷ []);
  }

  unfoldable pub with_custom : Text → SystemPromptBuilder J → SystemPromptBuilder J
  with_custom prompt self = record self { custom = some prompt }

module _ {J : Type 0} (to_string_pretty : J → Option Text) where
  abbrev schema_block : Option Text → Text
  unfolding codes join
  schema_block none = []
  schema_block (some schema_str) =
      join [] (fence ∷ codes "json" ∷ newline ∷ schema_str ∷ newline ∷ fence ∷ newline ∷ [])

  unfoldable pub tool_section : ToolEntry J → Text
  unfolding codes join
  tool_section tool = join [] (
      newline
      ∷ codes "### "
      ∷ tool.name
      ∷ newline
      ∷ tool.description
      ∷ newline
      ∷ schema_block (to_string_pretty tool.schema)
      ∷ [])

  unfoldable pub tool_sections : List (ToolEntry J) → Text
  tool_sections [] = []
  tool_sections (tool ∷ tools) = tool_section tool ++ tool_sections tools

  unfoldable pub catalogue : List (ToolEntry J) → Text
  unfolding codes join
  catalogue tools =
      if is_empty tools
      then []
      else join [] (newline ∷ codes "## Available Tools" ∷ newline ∷ tool_sections tools ∷ [])

  unfoldable pub build : SystemPromptBuilder J → Text
  unfolding codes join instructions
  build self = join [] (
      codes "You are **"
      ∷ self.agent_name
      ∷ codes "**, "
      ∷ self.agent_description
      ∷ codes "."
      ∷ newline
      ∷ catalogue self.tools
      ∷ newline
      ∷ codes "## Instructions"
      ∷ newline
      ∷ instructions self.custom
      ∷ [])

  unfoldable pub inject_into : SystemPromptBuilder J → CompletionConfig J → CompletionConfig J
  inject_into self config = record config { system = some (build self) }
