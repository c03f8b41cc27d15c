-- ===== src/Providers/Cohere/Contents.antt =====
-- When crates/roos-providers/src/cohere.rs answers without content.
use roos.Base.{
  ◌≡◌, refl, ap, ◌∙◌, sym, arith, inl, inr, ◌↔◌, Text, join, is_empty, Bool-cases, none, some, List,
  [], ◌∷◌, ◌++◌, map, All,
}
use roos.Providers.Cohere.{ApiResponse, ApiContentBlock, map_response, non_empty}

join-cons : (t : Text) (ts : List Text) → join [] (t ∷ ts) ≡ t ++ join [] ts
unfolding join
join-cons [] [] = refl
join-cons (c ∷ t) [] = ap (λ u. c ∷ u) (join-cons t [])
join-cons t (u ∷ ts) = refl

append-is_nil : (s t : Text) → (s ++ t ≡ []) ↔ ((s ≡ []) × (t ≡ []))
append-is_nil [] t = (λ h. (refl, h), λ h. h.1)
append-is_nil (c ∷ s) t = (λ h. cc, λ h. absurd (cc))

All-join :
    (blocks : List ApiContentBlock)
    → (join [] (map (λ b. b.text) blocks) ≡ []) ↔ All (λ b. b.text ≡ []) blocks
unfolding join
All-join [] = (λ _. tt, λ _. refl)
All-join (b ∷ blocks) =
    let texts = map (λ b. b.text) blocks in
    let (split, glue) = append-is_nil b.text (join [] texts) in
    let (there, back) = All-join blocks in
    (
      λ h. let (first, rest) = split (sym (join-cons b.text texts) ∙ h) in (first, there rest),
      λ (first, rest). join-cons b.text texts ∙ glue (first, back rest),
    )

non_empty-none : (t : Text) → (non_empty t ≡ none) ↔ (t ≡ [])
non_empty-none [] = (λ _. refl, λ _. refl)
non_empty-none (c ∷ t) = (λ h. cc, λ h. absurd (cc))

-- The content of an answer is `None` exactly if all its blocks are empty texts, and else it is the
-- blocks one behind the other.
map_response-content :
    {J : Type 0} (api : ApiResponse J)
    → (((map_response api).content ≡ none) ↔ All (λ b. b.text ≡ []) api.message.content)
      × ((t : Text)
          → (map_response api).content ≡ some t
          → t ≡ join [] (map (λ b. b.text) api.message.content))
unfolding map_response
map_response-content api =
    let text = join [] (map (λ b. b.text) api.message.content) in
    let (there, back) = non_empty-none text in
    let (split, glue) = All-join api.message.content in
    (
      (λ h. split (there h), λ h. back (glue h)),
      λ t h. elim (Bool-cases (is_empty text)) [
        | inl e ↦ absurd (ground (arith, h, e))
        | inr e ↦ ground (arith, h, e)
      ],
    )
