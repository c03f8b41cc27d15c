-- ===== src/Orchestrator/Prompt/Catalogue.antt =====
-- What a tool adds to the prompt of crates/roos-orchestrator/src/prompt.rs.
use roos.Base.{
  ◌≡◌, sym, ap, ◌∙◌, Text, codes, join, is_empty, if◌then◌else◌, Option, List, [], ◌∷◌, ◌++◌,
  append-nil, append_assoc,
}
use roos.Orchestrator.Prompt.{
  ToolEntry, SystemPromptBuilder, newline, instructions, with_tool, tool_section, tool_sections,
  catalogue, build,
}

-- The heading comes with the first tool.
abbrev pub heading : {J : Type 0} → List (ToolEntry J) → Text
unfolding codes
heading tools = if is_empty tools then newline ++ (codes "## Available Tools" ++ newline) else []

regroup_start :
    (a b c d e x : Text) → a ++ (b ++ (c ++ (d ++ (e ++ x)))) ≡ (a ++ (b ++ (c ++ (d ++ e)))) ++ x
regroup_start a b c d e x = simp (append_assoc)

regroup_tool : (a b c d e : Text) → a ++ ((b ++ (c ++ d)) ++ e) ≡ (a ++ b) ++ (c ++ (d ++ e))
regroup_tool a b c d e = simp (append_assoc)

module _ {J : Type 0} (to_string_pretty : J → Option Text) where
  tool_sections-append :
      (tools : List (ToolEntry J)) (t : ToolEntry J)
      → tool_sections to_string_pretty (tools ++ t ∷ [])
        ≡ tool_sections to_string_pretty tools ++ tool_section to_string_pretty t
  unfolding tool_sections
  tool_sections-append [] t = append-nil (tool_section to_string_pretty t)
  tool_sections-append (u ∷ tools) t =
      ap (λ s. tool_section to_string_pretty u ++ s) (tool_sections-append tools t)
      ∙ sym (
          append_assoc (tool_section to_string_pretty u) (tool_sections to_string_pretty tools)
            (tool_section to_string_pretty t))

  catalogue-append :
      (tools : List (ToolEntry J)) (t : ToolEntry J)
      → catalogue to_string_pretty (tools ++ t ∷ [])
        ≡ catalogue to_string_pretty tools ++ (heading tools ++ tool_section to_string_pretty t)
  unfolding catalogue join codes tool_sections
  catalogue-append [] t =
      ap (λ s. newline ++ (codes "## Available Tools" ++ (newline ++ s)))
        (append-nil (tool_section to_string_pretty t))
  catalogue-append (u ∷ tools) t =
      ap (λ s. newline ++ (codes "## Available Tools" ++ (newline ++ s)))
        (tool_sections-append (u ∷ tools) t)

  -- A tool that is added to a builder adds its section to the prompt, behind those of the tools before
  -- it, with the heading of the catalogue if it is the first; what stands before and behind stays.
  build-with_tool :
      (self : SystemPromptBuilder J) (name description : Text) (schema : J)
      → let t : ToolEntry J = record { name = name; description = description; schema = schema } in
        (front back : Text) × (build to_string_pretty self ≡ front ++ back)
        × (build to_string_pretty (with_tool name description schema self)
            ≡ front ++ (heading self.tools ++ (tool_section to_string_pretty t ++ back)))
  unfolding build with_tool join
  build-with_tool self name description schema =
      let t : ToolEntry J = record { name = name; description = description; schema = schema } in
      let start =
        codes "You are **"
        ++ (self.agent_name
            ++ (codes "**, " ++ (self.agent_description ++ (codes "." ++ newline)))) in
      let split =
        regroup_start (codes "You are **") self.agent_name (codes "**, ") self.agent_description
          (codes "." ++ newline) in
      let section = tool_section to_string_pretty t in
      let back = newline ++ (codes "## Instructions" ++ (newline ++ instructions self.custom)) in
      (
        start ++ catalogue to_string_pretty self.tools,
        back,
        split (catalogue to_string_pretty self.tools ++ back)
            ∙ sym (append_assoc start (catalogue to_string_pretty self.tools) back),
        split (catalogue to_string_pretty (self.tools ++ t ∷ []) ++ back)
            ∙ ap (λ c. start ++ (c ++ back)) (catalogue-append self.tools t)
            ∙ regroup_tool start (catalogue to_string_pretty self.tools) (heading self.tools)
                section back,
      )
