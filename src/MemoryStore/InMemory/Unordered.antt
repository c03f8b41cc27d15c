-- ===== src/MemoryStore/InMemory/Unordered.antt =====
-- The store of crates/roos-memory/src/in_memory.rs without the order of its entries: agents that share
-- it do not disturb each other.
use mathlib.Core.Quot
use mathlib.Core.Quot.{Quot}
use roos.Base.{
  ◌≡◌, ◌≢◌, refl, sym, ◌∙◌, arith, nat_eq, nat_eq_iff, Option, none, some, false, ok, Result, List,
  [], ◌∷◌, ◌++◌, if◌then◌else◌, ℕ_eq,
}
use roos.Base.Dict
use roos.Base.Dict.{Dict, get-insert, get-remove}
use roos.Core.Memory
use roos.Core.Memory.{MemoryError, ConversationHistory, ConversationMessage}
use roos.Core.Types.{Uuid}
use roos.MemoryStore.InMemory.{InMemoryStore, store, load, append, clear, in_memory}
use roos.MemoryStore.Spec.{or_new}

-- What can be looked up is the same.
abbrev pub SameEntries : Dict Uuid ConversationHistory → Dict Uuid ConversationHistory → Type 0
SameEntries d e = (k : Uuid) → Dict.get d k ≡ Dict.get e k

-- A `HashMap`, whose entries have no order.
abbrev pub HashMap : Type 0
HashMap = Quot SameEntries

abbrev pub hash_map : InMemoryStore → HashMap
hash_map s = Quot.mk s.inner

-- A call of one of the three methods that write.
pub data Call : Type 0 where
  store_call : ConversationHistory → Call
  append_call : Uuid → ConversationMessage → Call
  clear_call : Uuid → Call

abbrev pub target : Call → Uuid
target (store_call h) = h.run_id
target (append_call id message) = id
target (clear_call id) = id

abbrev pub made : Call → InMemoryStore → Result MemoryError (Unit {0}) × InMemoryStore
made (store_call h) = in_memory.store h
made (append_call id message) = in_memory.append id message
made (clear_call id) = in_memory.clear id

-- A message behind the messages of a history, or of an empty one.
abbrev pub with_message :
    Uuid → Option ConversationHistory → ConversationMessage → ConversationHistory
with_message id none message = record { run_id = id; messages = message ∷ [] }
with_message id (some h) message = record {
  run_id = h.run_id;
  messages = h.messages ++ message ∷ [];
}

pub push-with_message :
    (id : Uuid) (o : Option ConversationHistory) (message : ConversationMessage)
    → Memory.push (or_new id o) message ≡ with_message id o message
unfolding Memory.push Memory.new
push-with_message id none message = refl
push-with_message id (some h) message = refl

-- What a call makes of the history of its run.
abbrev pub effect : Call → Option ConversationHistory → Option ConversationHistory
effect (store_call h) o = some h
effect (append_call id message) o = some (with_message id o message)
effect (clear_call id) o = none

pub made-get :
    (c : Call) (s : InMemoryStore) (k : Uuid)
    → s.poisoned ≡ false
    → ((made c s).1.poisoned ≡ false)
      × ((made c s).0 ≡ ok tt)
      × (Dict.get (made c s).1.inner k ≡ (
          if nat_eq (target c) k
          then effect c (Dict.get s.inner (target c))
          else Dict.get s.inner k))
unfolding store append clear
made-get (store_call h) s k free = rw free (refl, refl, get-insert s.inner h.run_id k h)
made-get (append_call id message) s k free = rw free (
  refl,
  refl,
  get-insert s.inner id k _ ∙ rw (push-with_message id (Dict.get s.inner id) message) refl,
)
made-get (clear_call id) s k free = rw free (refl, refl, get-remove s.inner id k)

unfoldable pub made_all : List Call → InMemoryStore → InMemoryStore
made_all [] s = s
made_all (c ∷ calls) s = made_all calls (made c s).1

pub load-get :
    (s : InMemoryStore) (id : Uuid) → s.poisoned ≡ false → (load id s).0 ≡ ok (Dict.get s.inner id)
unfolding load
load-get s id free = rw free refl

-- Two updates at different keys, seen at a third.
swapped :
    (i j k : Uuid) (f g : Option ConversationHistory → Option ConversationHistory)
    (before m n : Uuid → Option ConversationHistory)
    → i ≢ j
    → ((x : Uuid) → m x ≡ (if nat_eq i x then f (before i) else before x))
    → ((x : Uuid) → n x ≡ (if nat_eq j x then g (before j) else before x))
    → (if nat_eq j k then g (m j) else m k) ≡ (if nat_eq i k then f (n i) else n k)
swapped i j k f g before m n apart h l =
    let m_j : m j ≡ before j = ground (arith, h j, nat_eq_iff i j) in
    let n_i : n i ≡ before i = ground (arith, l i, nat_eq_iff j i) in
    rw (m_j, n_i, h k, l k) (ground (arith, nat_eq_iff i k, nat_eq_iff j k))

-- Two updates at different keys, one after the other.
both_updates :
    (i j k : Uuid) (f g : Option ConversationHistory → Option ConversationHistory)
    (before m n : Uuid → Option ConversationHistory)
    → i ≢ j
    → ((x : Uuid) → m x ≡ (if nat_eq i x then f (before i) else before x))
    → ((x : Uuid) → n x ≡ (if nat_eq j x then g (m j) else m x))
    → n k ≡ (if nat_eq i k then f (before i) else if nat_eq j k then g (before j) else before k)
both_updates i j k f g before m n apart h l =
    let m_j : m j ≡ before j = ground (arith, h j, nat_eq_iff i j) in
    rw (l k, m_j, h k) (ground (arith, nat_eq_iff i k, nat_eq_iff j k))

-- Two calls of `store`, `append` and `clear` on different runs, unless the lock is poisoned. In
-- either order both return `Ok`, and the two orders leave the same map, whose entries have no order.
-- That map holds for the run of each call what this call alone makes of its history (the history
-- that is stored, the old or an empty one with the message behind it, or none), and every other
-- history as before.
pub other_run-commutes :
    (a b : Call) (s : InMemoryStore)
    → target a ≢ target b
    → s.poisoned ≡ false
    → (((made a s).0 ≡ ok tt)
        × ((made b (made a s).1).0 ≡ ok tt)
        × ((made b s).0 ≡ ok tt)
        × ((made a (made b s).1).0 ≡ ok tt))
      × (hash_map (made b (made a s).1).1 ≡ hash_map (made a (made b s).1).1)
      × ((k : Uuid)
          → Dict.get (made b (made a s).1).1.inner k ≡ (
              if nat_eq (target a) k
              then effect a (Dict.get s.inner (target a))
              else if nat_eq (target b) k
              then effect b (Dict.get s.inner (target b))
              else Dict.get s.inner k))
other_run-commutes a b s apart free =
    let a_first = λ (k : Uuid). made-get a s k free in
    let b_first = λ (k : Uuid). made-get b s k free in
    let then_b = λ (k : Uuid). made-get b (made a s).1 k (a_first k).0 in
    let then_a = λ (k : Uuid). made-get a (made b s).1 k (b_first k).0 in
    (
      ((a_first 0).1, (then_b 0).1, (b_first 0).1, (then_a 0).1),
      Quot.sound λ k.
          (then_b k).2
          ∙ swapped (target a) (target b) k (effect a) (effect b) (Dict.get s.inner)
              (Dict.get (made a s).1.inner) (Dict.get (made b s).1.inner) apart (λ x. (a_first x).2)
              (λ x. (b_first x).2)
          ∙ sym (then_a k).2,
      λ k.
          both_updates (target a) (target b) k (effect a) (effect b) (Dict.get s.inner)
            (Dict.get (made a s).1.inner) (Dict.get (made b (made a s).1).1.inner) apart
            (λ x. (a_first x).2) (λ x. (then_b x).2),
    )
