-- ===== src/Tools/Web/Summaries.antt =====
-- Which text crates/roos-tools/src/web.rs takes for the summary.
use roos.Base.{
  ◌≡◌, refl, arith, inl, inr, ◌⊎◌, Text, codes, none, some, Option-cases, is_empty, false, List, [],
  ◌∷◌,
}
use roos.Tools.Web.{Value, abstract_text, related_topic, summary}

module _ {V : Type 0} (value : Value V) where
  -- A member of an object, as text.
  abbrev pub MemberText : V → Text → Text → Type 0
  MemberText v key text = (u : V) × (value.get v key ≡ some u) × (value.as_str u ≡ some text)

  abbrev pub HasAbstract : V → Text → Type 0
  HasAbstract resp t = MemberText resp (codes "AbstractText") t × (is_empty t ≡ false)

  -- The text of the first related topic.
  abbrev pub HasTopic : V → Text → Type 0
  HasTopic resp t =
      (topics : V) × (item : V) × (rest : List V) × (value.get resp (codes "RelatedTopics")
        ≡ some topics)
      × (value.as_array topics ≡ some (item ∷ rest))
      × MemberText item (codes "Text") t

  abstract_text-HasAbstract :
      (resp : V) (t : Text) → abstract_text value resp ≡ some t → HasAbstract resp t
  unfolding abstract_text
  abstract_text-HasAbstract resp t h = elim (Option-cases (value.get resp (codes "AbstractText"))) [
    | inl p ↦ absurd (ground arith)
    | inr (u, p) ↦ elim (Option-cases (value.as_str u)) [
      | inl q ↦ absurd (ground arith)
      | inr (s, q) ↦ ((u, p, ground arith), ground arith)
    ]
  ]

  abstract_text-none :
      (resp : V) → abstract_text value resp ≡ none → (t : Text) → ¬ HasAbstract resp t
  unfolding abstract_text
  abstract_text-none resp h t ((u, p, q), some_text) = ground arith

  related_topic-HasTopic :
      (resp : V) (t : Text) → related_topic value resp ≡ some t → HasTopic resp t
  unfolding related_topic
  related_topic-HasTopic resp t h = elim (Option-cases (value.get resp (codes "RelatedTopics"))) [
    | inl p ↦ absurd (ground arith)
    | inr (topics, p) ↦ elim (Option-cases (value.as_array topics)) [
      | inl q ↦ absurd (ground arith)
      | inr ([], q) ↦ absurd (ground arith)
      | inr (item ∷ rest, q) ↦ elim (Option-cases (value.get item (codes "Text"))) [
        | inl r ↦ absurd (ground arith)
        | inr (u, r) ↦ (topics, item, rest, p, q, (u, r, ground arith))
      ]
    ]
  ]

  related_topic-none : (resp : V) → related_topic value resp ≡ none → (t : Text) → ¬ HasTopic resp t
  unfolding related_topic
  related_topic-none resp h t (topics, item, rest, p, q, (u, r, s)) = ground arith

  -- The summary is the abstract, if there is one that is not empty; else the text of the first related
  -- topic, if it has one; else `No results found.`
  pub summary-outcome :
      (resp : V)
      → ((t : Text) × HasAbstract resp t × (summary value resp ≡ t))
        ⊎ (((t : Text) → ¬ HasAbstract resp t)
            × (((t : Text) × HasTopic resp t × (summary value resp ≡ t))
                ⊎ (((t : Text) → ¬ HasTopic resp t)
                    × (summary value resp ≡ codes "No results found."))))
  unfolding summary
  summary-outcome resp = elim (Option-cases (abstract_text value resp)) [
    | inr (t, p) ↦ inl (t, abstract_text-HasAbstract resp t p, rw p refl)
    | inl p ↦ inr (
      abstract_text-none resp p,
      elim (Option-cases (related_topic value resp)) [
        | inr (t, q) ↦ inl (t, related_topic-HasTopic resp t q, rw (p, q) refl)
        | inl q ↦ inr (related_topic-none resp q, rw (p, q) refl)
      ],
    )
  ]
