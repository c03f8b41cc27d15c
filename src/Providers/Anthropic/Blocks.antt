-- ===== src/Providers/Anthropic/Blocks.antt =====
-- How crates/roos-providers/src/anthropic.rs splits the blocks of an answer.
use roos.Base.{◌≡◌, ◌↔◌, refl, ap, ◌∙◌, Text, none, List, [], ◌∷◌, ◌++◌, append_assoc, append-nil}
use roos.Core.Provider.{ToolCall}
use roos.Providers.Anthropic.{
  ApiContent, text_block, tool_use_block, ApiResponse, sort_blocks, text_content, map_response,
}

text_content-none : (ts : List Text) → (text_content ts ≡ none) ↔ (ts ≡ [])
unfolding text_content
text_content-none [] = (λ h. refl, λ h. refl)
text_content-none (t ∷ ts) = (λ h. cc, λ h. cc)

module _ {J : Type 0} where
  -- The texts and the calls of an answer, each in the order of the answer.
  abbrev pub texts : List (ApiContent J) → List Text
  texts [] = []
  texts (text_block text ∷ blocks) = text ∷ texts blocks
  texts (tool_use_block id name input ∷ blocks) = texts blocks

  abbrev pub calls : List (ApiContent J) → List (ToolCall J)
  calls [] = []
  calls (text_block text ∷ blocks) = calls blocks
  calls (tool_use_block id name input ∷ blocks) =
      record { id = id; name = name; input = input } ∷ calls blocks

  sort_blocks_lem :
      (blocks : List (ApiContent J)) (ts : List Text) (cs : List (ToolCall J))
      → sort_blocks blocks (ts, cs) ≡ (ts ++ texts blocks, cs ++ calls blocks)
  unfolding sort_blocks
  sort_blocks_lem [] ts cs = simp (append-nil)
  sort_blocks_lem (text_block text ∷ blocks) ts cs =
      sort_blocks_lem blocks (ts ++ text ∷ []) cs
      ∙ ap (λ l. (l, cs ++ calls blocks)) (append_assoc ts (text ∷ []) (texts blocks))
  sort_blocks_lem (tool_use_block id name input ∷ blocks) ts cs =
      let call : ToolCall J = record { id = id; name = name; input = input } in
      sort_blocks_lem blocks ts (cs ++ call ∷ [])
      ∙ ap (λ l. (ts ++ texts blocks, l)) (append_assoc cs (call ∷ []) (calls blocks))

  -- The answer's texts are joined in order and its tool calls are kept in order, however the
  -- two are interleaved. The content is `None` exactly if there is no text block.
  map_response-calls :
      (api : ApiResponse J)
      → ((map_response api).tool_calls ≡ calls api.content)
        × ((map_response api).content ≡ text_content (texts api.content))
        × (((map_response api).content ≡ none) ↔ (texts api.content ≡ []))
  unfolding map_response
  map_response-calls api =
      let split = sort_blocks_lem api.content [] [] in
      (
        ap (λ p. p.1) split,
        ap (λ p. text_content p.0) split,
        rw split (text_content-none (texts api.content)),
      )
