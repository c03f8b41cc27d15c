-- ===== src/Tools/Shell/Guarded.antt =====
-- Which commands a run of crates/roos-orchestrator/src/loop_.rs with the tool of
-- crates/roos-tools/src/shell.rs passes to `sh -c`.
use mathlib.Core.List.{Memᴰ}
use roos.Base.{
  ◌+◌, ◌<◌, ◌^◌, ◌≡◌, refl, sym, ap, ◌∙◌, any, text_eq, text_eq_iff, Bool-cases, true, inl, inr,
  Text, List, [], ◌∷◌, ◌++◌, append-nil, append_assoc, Result, ok, err, All, All-append,
}
use roos.Base.Action.{Action}
use roos.Core.Memory.{Memory, ConversationMessage}
use roos.Core.Provider.{Message, CompletionConfig, LlmProvider}
use roos.Core.Tool.{Tool}
use roos.Core.Types.{Uuid, AgentInput}
use roos.Orchestrator.Calls
use roos.Orchestrator.Calls.{Platform}
use roos.Orchestrator.Loop
use roos.Orchestrator.Loop.{max_steps_or}
use roos.Orchestrator.Loop.Keeps.{Keepers, KeptBy, run-keeps}
use roos.Orchestrator.Loop.Rule.{Returns}
use roos.Tools.Shell.{
  first_token, is_allowed, collected, on_command, execute, shell_tool, with_allowlist,
}

any-Memᴰ : (t : Text) (entries : List Text) → any (λ a. text_eq a t) entries ≡ true → Memᴰ t entries
any-Memᴰ t [] h = absurd (cc)
any-Memᴰ t (a ∷ entries) h = elim (Bool-cases (text_eq a t)) [
  | inl same ↦ Memᴰ.head (sym ((text_eq_iff a t).0 same))
  | inr other ↦ Memᴰ.tail (any-Memᴰ t entries (rw other at h))
]

-- The first token of the command is on the list.
abbrev pub IsListed : List Text → Text → Type 0
IsListed allowlist command = Memᴰ (first_token command) allowlist

module _ {W : Type 0} (commands : W → List Text) where
  -- The log has grown from `old` by commands whose first token is on the list.
  abbrev pub Grown : List Text → List Text → W → Type 0
  Grown allowlist old w =
      (new : List Text) × (commands w ≡ old ++ new) × All (IsListed allowlist) new

  -- Each method leaves the log alone.
  pub record Quiet {J : Type 0} (provider : LlmProvider W J) (memory : Memory W) : Type 0 where
    pub completes :
        (messages : List Message) (config : CompletionConfig J) (w : W)
        → commands (provider.complete messages config w).1 ≡ commands w
    pub loads : (id : Uuid) (w : W) → commands (memory.load id w).1 ≡ commands w
    pub appends :
        (id : Uuid) (m : ConversationMessage) (w : W)
        → commands (memory.append id m w).1 ≡ commands w

  abbrev pub QuietTool : {J : Type 0} → Tool W J → Type 0
  QuietTool {J} tool = (input : J) (w : W) → commands (tool.execute input w).1 ≡ commands w

module _ {W : Type 0} (commands : W → List Text) (sh : Text → Action W Text (Text × Text))
    (runs : (c : Text) (w : W) → commands (sh c w).1 ≡ commands w ++ c ∷ []) (entry : Text)
    (entries old : List Text) where
  abbrev P : W → Type 0
  P = Grown commands (entry ∷ entries) old

  quiet-P : (w w' : W) → commands w' ≡ commands w → P w → P w'
  quiet-P w w' same (new, grown, listed) = (new, same ∙ grown, listed)

  collected_world : (x : Result Text (Text × Text) × W) → (collected sh x).1 ≡ x.1
  collected_world (ok (out, error), w) = refl
  collected_world (err e, w) = refl

  on_command-P : (r : Result Text Text) (w : W) → P w → P (on_command sh (entry ∷ entries) r w).1
  unfolding is_allowed
  on_command-P (err e) w p = p
  on_command-P (ok command) w (new, grown, listed) =
      elim (Bool-cases (is_allowed (entry ∷ entries) command)) [
        | inl allowed ↦ rw allowed (
          new ++ command ∷ [],
          ap commands (collected_world (sh command w))
              ∙ runs command w
              ∙ rw (grown, append_assoc) refl,
          All-append (IsListed (entry ∷ entries)) new (command ∷ []) listed
              (any-Memᴰ (first_token command) (entry ∷ entries) allowed, tt),
        )
        | inr denied ↦ rw denied (new, grown, listed)
      ]

  module _ {J : Type 0} where
    shell-P :
        (schema : J) (from_value : J → Result Text Text)
        → KeptBy P (shell_tool sh schema from_value (with_allowlist (entry ∷ entries)))
    unfolding shell_tool with_allowlist execute
    shell-P schema from_value input w p = on_command-P (from_value input) w p

    quiet-All : (tools : List (Tool W J)) → All (QuietTool commands) tools → All (KeptBy P) tools
    quiet-All [] h = tt
    quiet-All (t ∷ ts) h =
        ((λ input w p. quiet-P w (t.execute input w).1 (h.0 input w) p), quiet-All ts h.1)

    -- A run of a loop whose tools are the shell tool, with an allowlist that is not empty, and others
    -- ends, if `max_steps + 1` is below 2^64, and the commands that it passes to `sh -c`, whatever the
    -- model asks for and whatever the result, all have a first token that is on the list. The
    -- conditions: `commands` records each command that `sh -c` is passed, and nothing but the shell
    -- tool changes it.
    pub run-Grown :
        {T C : Type 0} (env : Platform W J T C) (provider : LlmProvider W J) (memory : Memory W)
        (others : List (Tool W J)) (schema : J) (from_value : J → Result Text Text)
        (input : AgentInput J) (config : CompletionConfig J) (w : W)
        → Quiet commands provider memory
        → All (QuietTool commands) others
        → max_steps_or input.max_steps + 1 < 2 ^ 64
        → commands w ≡ old
        → Returns
            (λ r. Grown commands (entry ∷ entries) old)
            (Loop.run env
              (Calls.new provider
                (shell_tool sh schema from_value (with_allowlist (entry ∷ entries)) ∷ others)
                memory)
              input
              config
              w)
    run-Grown env provider memory others schema from_value input config w quiet quiet_tools fits
          start =
        let keepers : Keepers P provider memory = record {
          completes = λ messages config v p.
              quiet-P v (provider.complete messages config v).1 (quiet.completes messages config v)
                p;
          loads = λ id v p. quiet-P v (memory.load id v).1 (quiet.loads id v) p;
          appends = λ id m v p. quiet-P v (memory.append id m v).1 (quiet.appends id m v) p;
        } in
        run-keeps env P provider
          (shell_tool sh schema from_value (with_allowlist (entry ∷ entries)) ∷ others) memory
          keepers (shell-P schema from_value, quiet-All others quiet_tools) input config w fits
          ([], start ∙ sym (append-nil old), tt)
