-- ===== src/Core/Supervisor/Parsing.antt =====
-- What the supervisor of crates/roos-core/src/supervisor.rs reads out of a model's answer.
use roos.Base.{
  subst, ok, append_assoc, ◌-◌, ◌<◌, All-append, ℕ, ◌+◌, ◌≡◌, ◌≢◌, refl, arith, Text, find, none,
  some, List, [], ◌∷◌, ◌++◌, Result, err, map_err, raised, panicked, length, length-append,
  take_append, drop_append, All,
}
use roos.Core.Supervisor.Subtasks.{Subtask, rfind, slice, unparsed, parse_subtasks}

-- `s` holds no byte `c`.
abbrev pub Lacks : ℕ → Text → Type 0
Lacks c s = All (λ b. b ≢ c) s

find-Lacks : (c : ℕ) (s t : Text) → Lacks c s → find (c ∷ []) (s ++ (c ∷ t)) ≡ some (length s)
unfolding find
find-Lacks c [] t h = ground arith
find-Lacks c (b ∷ s) t h = let later = find-Lacks c s t h.1 in let apart = h.0 in ground arith

rfind-none : (c : ℕ) (s : Text) → Lacks c s → rfind c s ≡ none
unfolding rfind
rfind-none c [] h = refl
rfind-none c (b ∷ s) h = let later = rfind-none c s h.1 in let apart = h.0 in ground arith

rfind-Lacks : (c : ℕ) (s t : Text) → Lacks c t → rfind c (s ++ (c ∷ t)) ≡ some (length s)
unfolding rfind
rfind-Lacks c [] t h = let later = rfind-none c t h in ground arith
rfind-Lacks c (b ∷ s) t h = let later = rfind-Lacks c s t h in ground arith

slice-middle :
    (before mid after : Text) (end : ℕ)
    → end + 1 ≡ length before + length mid
    → slice (before ++ (mid ++ after)) (length before) end ≡ ok mid
unfolding slice
slice-middle before mid after end h = rw (drop_append before (mid ++ after)) (
    let size : (end + 1) - length before ≡ length mid = omega arith in
    rw (size, take_append mid after) (ground arith))

-- The array is found in noise: prose without `[` before it and prose without `]` after it change
-- nothing, whatever stands between the brackets.
parse_subtasks-noise :
    (from_str : Text → Result Text (List Subtask)) (before body after : Text)
    → Lacks 91 before
    → Lacks 93 after
    → parse_subtasks from_str (before ++ (91 ∷ (body ++ (93 ∷ after))))
      ≡ map_err (λ e. raised (unparsed e)) (from_str (91 ∷ (body ++ (93 ∷ []))))
unfolding parse_subtasks
parse_subtasks-noise from_str before body after h k =
    let text = before ++ (91 ∷ (body ++ (93 ∷ after))) in
    let start : find (91 ∷ []) text ≡ some (length before) =
      find-Lacks 91 before (body ++ (93 ∷ after)) h in
    let end : rfind 93 text ≡ some (length (before ++ (91 ∷ body))) =
      subst (λ t. rfind 93 t ≡ some (length (before ++ (91 ∷ body))))
        (append_assoc before (91 ∷ body) (93 ∷ after))
        (rfind-Lacks 93 (before ++ (91 ∷ body)) after k) in
    let cut : slice text (length before) (length (before ++ (91 ∷ body)))
        ≡ ok (91 ∷ (body ++ (93 ∷ []))) =
      subst
        (λ t.
          slice (before ++ (91 ∷ t)) (length before) (length (before ++ (91 ∷ body)))
          ≡ ok (91 ∷ (body ++ (93 ∷ []))))
        (append_assoc body (93 ∷ []) after)
        (slice-middle before (91 ∷ (body ++ (93 ∷ []))) after (length (before ++ (91 ∷ body)))
          (omega (arith, length-append {0}))) in
    rw (start, end, cut) refl

slice-backwards :
    (content : Text) (start end : ℕ) → end + 1 < start → slice content start end ≡ err panicked
unfolding slice
slice-backwards content start end h = ground arith

length-some : (s : Text) → s ≢ [] → 0 < length s
length-some [] h = absurd (h refl)
length-some (b ∷ s) h = omega arith

-- An answer whose last `]` stands before its first `[`, with text between them, makes the slice
-- panic: `run` returns no `AgentError`.
pub parse_subtasks-panics :
    (from_str : Text → Result Text (List Subtask)) (before between after : Text)
    → Lacks 91 before
    → Lacks 91 between
    → Lacks 93 between
    → Lacks 93 after
    → between ≢ []
    → parse_subtasks from_str (before ++ (93 ∷ (between ++ (91 ∷ after)))) ≡ err panicked
unfolding parse_subtasks
parse_subtasks-panics from_str before between after h i k l some_text =
    let text = before ++ (93 ∷ (between ++ (91 ∷ after))) in
    let start : find (91 ∷ []) text ≡ some (length (before ++ (93 ∷ between))) =
      subst (λ t. find (91 ∷ []) t ≡ some (length (before ++ (93 ∷ between))))
        (append_assoc before (93 ∷ between) (91 ∷ after))
        (find-Lacks 91 (before ++ (93 ∷ between)) after
          (All-append (λ b. b ≢ 91) before (93 ∷ between) h ((λ same. ground arith), i))) in
    let end : rfind 93 text ≡ some (length before) =
      rfind-Lacks 93 before (between ++ (91 ∷ after))
        (All-append (λ b. b ≢ 93) between (91 ∷ after) k ((λ same. ground arith), l)) in
    let longer = length-some between some_text in
    let order : length before + 1 < length (before ++ (93 ∷ between)) =
      omega (arith, length-append {0}) in
    rw (start, end, slice-backwards text (length (before ++ (93 ∷ between))) (length before) order)
      refl
