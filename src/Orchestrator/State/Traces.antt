-- ===== src/Orchestrator/State/Traces.antt =====
-- Sequences of events of crates/roos-orchestrator/src/state.rs, and the diagram that its header
-- comment draws.
use roos.Base.{
  ℕ, suc, ◌+◌, ◌<◌, ◌^◌, ◌≡◌, refl, subst, ok-injective, Text, true, false, Result, ok, is_ok,
  Result-cases, ok-ne-err, sym, List, [], ◌∷◌, ◌>>=◌, arith, inl, inr,
}
use roos.Core.Types.{usize}
use roos.Orchestrator.State.{
  AgentState, idle, reasoning, calling_tool, observing, finished, failed, TransitionError,
  is_terminal, step, start, call_tool, tool_done, continue_reasoning, finish, fail,
}

-- The methods of `AgentState`, as the events that a caller may fire.
pub data Event : Type 0 where
  start_event tool_done_event continue_event finish_event fail_event : Event
  call_tool_event : Text → Event

-- The method that an event calls.
unfoldable pub fire : AgentState → Event → Result TransitionError AgentState
unfolding start call_tool tool_done continue_reasoning finish fail
fire s start_event = start s
fire s (call_tool_event tool_name) = call_tool s tool_name
fire s tool_done_event = tool_done s
fire s continue_event = continue_reasoning s
fire s finish_event = finish s
fire s fail_event = ok (fail s)

-- A chain of events, as a caller writes it with `?`.
unfoldable pub fire_all : AgentState → List Event → Result TransitionError AgentState
unfolding fire
fire_all s [] = ok s
fire_all s (e ∷ es) = do t ← fire s e; fire_all t es

-- The edges of the diagram.
pub data Edge : AgentState → Event → AgentState → Type 0 where
  start_edge : Edge idle start_event (reasoning 1)
  call_edge : (t : Text) (n : ℕ) → Edge (reasoning n) (call_tool_event t) (calling_tool t n)
  done_edge : (t : Text) (n : ℕ) → Edge (calling_tool t n) tool_done_event (observing n)
  continue_edge : (n : ℕ) → Edge (observing n) continue_event (reasoning (usize (n + 1)))
  finish_edge : (n : ℕ) → Edge (reasoning n) finish_event finished
  fail_edge : (s : AgentState) → Edge s fail_event failed

-- Every edge of the diagram is an accepted event with the edge's target.
Edge-fire : {s t : AgentState} {e : Event} → Edge s e t → fire s e ≡ ok t
unfolding fire
Edge-fire start_edge = refl
Edge-fire (call_edge t n) = refl
Edge-fire (done_edge t n) = refl
Edge-fire (continue_edge n) = refl
Edge-fire (finish_edge n) = refl
Edge-fire (fail_edge s) = refl

-- An accepted event follows an edge of the diagram.
fire-Edge : (s t : AgentState) (e : Event) → fire s e ≡ ok t → Edge s e t
unfolding fire
fire-Edge idle t start_event h = subst (Edge idle start_event) (ok-injective h) start_edge
fire-Edge (reasoning n) t (call_tool_event x) h =
    subst (Edge (reasoning n) (call_tool_event x)) (ok-injective h) (call_edge x n)
fire-Edge (calling_tool x n) t tool_done_event h =
    subst (Edge (calling_tool x n) tool_done_event) (ok-injective h) (done_edge x n)
fire-Edge (observing n) t continue_event h =
    subst (Edge (observing n) continue_event) (ok-injective h) (continue_edge n)
fire-Edge (reasoning n) t finish_event h =
    subst (Edge (reasoning n) finish_event) (ok-injective h) (finish_edge n)
fire-Edge s t fail_event h = subst (Edge s fail_event) (ok-injective h) (fail_edge s)
fire-Edge _ t _ h = cc

-- The events that begin a reasoning cycle.
abbrev pub cycles : List Event → ℕ
cycles [] = 0
cycles (start_event ∷ es) = suc (cycles es)
cycles (continue_event ∷ es) = suc (cycles es)
cycles (_ ∷ es) = cycles es

cycles-cons : (e : Event) (es : List Event) → cycles (e ∷ es) ≡ cycles (e ∷ []) + cycles es
cycles-cons e es = ground arith

-- A finished or failed run accepts no event but `fail`, and that leads to `failed`.
terminal_only_fails :
    (s : AgentState) (e : Event)
    → is_terminal s ≡ true
    → (is_ok (fire s e) ≡ true → e ≡ fail_event) × ((t : AgentState) → fire s e ≡ ok t → t ≡ failed)
unfolding fire is_terminal
terminal_only_fails s e h = (ground arith, λ t k. ground arith)

fire-live :
    (s t : AgentState) (e : Event) → fire s e ≡ ok t → is_terminal t ≡ false → is_terminal s ≡ false
unfolding fire is_terminal
fire-live s t e h live = ground arith

fire-step :
    (s t : AgentState) (e : Event)
    → fire s e ≡ ok t
    → is_terminal t ≡ false
    → step s + cycles (e ∷ []) < 2 ^ 64
    → step t ≡ step s + cycles (e ∷ [])
unfolding fire step is_terminal
fire-step s t e h live fits = ground arith

fire_all-live :
    (s t : AgentState) (es : List Event)
    → fire_all s es ≡ ok t
    → is_terminal t ≡ false
    → is_terminal s ≡ false
unfolding fire_all
fire_all-live s t [] h live = rw (ok-injective h) live
fire_all-live s t (e ∷ es) h live = elim (Result-cases (fire s e)) [
  | inl (u, p) ↦ fire-live s u e p (fire_all-live u t es (rw p at h) live)
  | inr (x, p) ↦ absurd (ok-ne-err (sym (rw p at h)))
]

fire_all-step :
    (s t : AgentState) (es : List Event)
    → fire_all s es ≡ ok t
    → is_terminal t ≡ false
    → step s + cycles es < 2 ^ 64
    → step t ≡ step s + cycles es
unfolding fire_all
fire_all-step s t [] h live fits = rw (ok-injective h) (omega arith)
fire_all-step s t (e ∷ es) h live fits = elim (Result-cases (fire s e)) [
  | inl (u, p) ↦
      let later : fire_all u es ≡ ok t = rw p at h in
      let here : step u ≡ step s + cycles (e ∷ []) =
        fire-step s u e p (fire_all-live u t es later live) (omega (arith, cycles-cons e es)) in
      omega
        (arith, cycles-cons e es, fire_all-step u t es later live (omega (arith, cycles-cons e es)))
  | inr (x, p) ↦ absurd (ok-ne-err (sym (rw p at h)))
]

-- While a run is neither finished nor failed, its step number is the number of reasoning cycles
-- that were begun since `Idle`, if fewer than 2^64 were.
pub step-eq-cycles :
    (t : AgentState) (es : List Event)
    → fire_all idle es ≡ ok t
    → is_terminal t ≡ false
    → cycles es < 2 ^ 64
    → step t ≡ cycles es
unfolding step
step-eq-cycles t es h live fits = omega (arith, fire_all-step idle t es h live (omega arith))
