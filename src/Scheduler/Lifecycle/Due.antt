-- ===== src/Scheduler/Lifecycle/Due.antt =====
-- Which tasks are due, in crates/roos-scheduler/src/scheduler.rs.
use mathlib.Core.List.{Memᴰ}
use roos.Base.{
  ℕ, ◌≡◌, refl, sym, subst, inl, inr, Text, Option, some, none, List, [], ◌∷◌, ◌++◌, Result, ok,
  err, Result-cases, ok-injective, Bool, true, false, Bool-cases, Option-cases, keep_if, arith,
}
use roos.Core.Types.{Uuid}
use roos.Scheduler.Task.{
  TaskKind, cron, one_shot, pending, completed, ScheduledTask, SchedulerError,
}
use roos.Scheduler.Backend.{Backend}
use roos.Scheduler.Store.{load, decoded, collect, list_tasks, parse_schedule}
use roos.Scheduler.Store.Laws.{BackendLaws}
use roos.Scheduler.Lifecycle.{is_due, due_tasks, next_round}

module _ {ℓ} {A : Type ℓ} where
  mem-append_left : (a : A) (xs ys : List A) → Memᴰ a xs → Memᴰ a (xs ++ ys)
  mem-append_left a [] ys m = elim m [ ]
  mem-append_left a (x ∷ xs) ys (Memᴰ.head e) = Memᴰ.head e
  mem-append_left a (x ∷ xs) ys (Memᴰ.tail m) = Memᴰ.tail (mem-append_left a xs ys m)

  mem-append_last : (a : A) (xs : List A) → Memᴰ a (xs ++ a ∷ [])
  mem-append_last a [] = Memᴰ.head refl
  mem-append_last a (x ∷ xs) = Memᴰ.tail (mem-append_last a xs)

  mem-keep_if :
      (p : A → Bool) (a : A) (xs : List A) → p a ≡ true → Memᴰ a xs → Memᴰ a (keep_if p xs)
  mem-keep_if p a [] h m = elim m [ ]
  mem-keep_if p a (x ∷ xs) h (Memᴰ.head e) =
      let q : p x ≡ true = subst (λ y. p y ≡ true) e h in rw q (Memᴰ.head e)
  mem-keep_if p a (x ∷ xs) h (Memᴰ.tail m) = elim (Bool-cases (p x)) [
    | inl q ↦ rw q (Memᴰ.tail (mem-keep_if p a xs h m))
    | inr q ↦ rw q (mem-keep_if p a xs h m)
  ]

  test-mem-cons :
      (p : A → Bool) (a x : A) (xs : List A)
      → p x ≡ true
      → (Memᴰ a xs → p a ≡ true)
      → Memᴰ a (x ∷ xs)
      → p a ≡ true
  test-mem-cons p a x xs q later (Memᴰ.head e) = subst (λ y. p y ≡ true) (sym e) q
  test-mem-cons p a x xs q later (Memᴰ.tail m) = later m

  keep_if-mem : (p : A → Bool) (a : A) (xs : List A) → Memᴰ a (keep_if p xs) → p a ≡ true
  keep_if-mem p a [] m = elim m [ ]
  keep_if-mem p a (x ∷ xs) m = elim (Bool-cases (p x)) [
    | inl q ↦ test-mem-cons p a x (keep_if p xs) q (keep_if-mem p a xs) (rw q at m)
    | inr q ↦ keep_if-mem p a xs (rw q at m)
  ]

module _ {D B S T : Type 0} (backend : Backend D B S T) where
  collect-keeps :
      (entries : List (Result Text (ℕ × B))) (acc ts : List (ScheduledTask T)) (t : ScheduledTask T)
      → collect backend entries acc ≡ ok ts
      → Memᴰ t acc
      → Memᴰ t ts
  unfolding collect
  collect-keeps [] acc ts t h m = subst (Memᴰ t) (ok-injective h) m
  collect-keeps (err e ∷ rest) acc ts t h m = cc
  collect-keeps (ok (k, v) ∷ rest) acc ts t h m = elim (Result-cases (backend.codec.from_slice v)) [
    | inl (u, p) ↦
        let later : collect backend rest (acc ++ u ∷ []) ≡ ok ts = ground arith in
        collect-keeps rest (acc ++ u ∷ []) ts t later (mem-append_left t acc (u ∷ []) m)
    | inr (e, p) ↦ absurd (ground arith)
  ]

  collect-mem :
      (entries : List (Result Text (ℕ × B))) (acc ts : List (ScheduledTask T)) (t : ScheduledTask T)
      (k : ℕ) (v : B)
      → collect backend entries acc ≡ ok ts
      → backend.codec.from_slice v ≡ ok t
      → Memᴰ (ok (k, v)) entries
      → Memᴰ t ts
  unfolding collect
  collect-mem [] acc ts t k v h read m = elim m [ ]
  collect-mem (entry ∷ rest) acc ts t k v h read (Memᴰ.head e) =
      let later : collect backend rest (acc ++ t ∷ []) ≡ ok ts = ground arith in
      collect-keeps rest (acc ++ t ∷ []) ts t later (mem-append_last t acc)
  collect-mem (err e ∷ rest) acc ts t k v h read (Memᴰ.tail m) = absurd (ground arith)
  collect-mem (ok (j, u) ∷ rest) acc ts t k v h read (Memᴰ.tail m) =
      elim (Result-cases (backend.codec.from_slice u)) [
        | inl (x, p) ↦
            let later : collect backend rest (acc ++ x ∷ []) ≡ ok ts = ground arith in
            collect-mem rest (acc ++ x ∷ []) ts t k v later read m
        | inr (e, p) ↦ absurd (ground arith)
      ]

  load-inv :
      (k : Uuid) (d : D) (t : ScheduledTask T)
      → load backend k d ≡ ok t
      → (v : B) × (backend.sled.get d k ≡ ok (some v)) × (backend.codec.from_slice v ≡ ok t)
  unfolding load
  load-inv k d t h = decoded-inv (backend.sled.get d k) h
    where
      decoded-inv :
          (r : Result Text (Option B))
          → decoded backend k r ≡ ok t
          → (v : B) × (r ≡ ok (some v)) × (backend.codec.from_slice v ≡ ok t)
      decoded-inv (err e) q = cc
      decoded-inv (ok none) q = cc
      decoded-inv (ok (some v)) q = (v, refl, ground arith)

  is_due-inv :
      (now : T) (t : ScheduledTask T)
      → is_due backend now t ≡ true
      → (t.state ≡ pending) × (nr : T) × (t.next_run ≡ some nr) × (backend.at_most nr now ≡ true)
  unfolding is_due
  is_due-inv now t h = elim (Option-cases t.next_run) [
    | inl p ↦ absurd (ground arith)
    | inr (nr, p) ↦ (ground arith, nr, p, ground arith)
  ]

  -- What `due_tasks` returns, if it returns `Ok`: every task that can be loaded, is pending and has
  -- a next run no later than now, and only pending tasks with such a next run.
  pub due_tasks-exact :
      BackendLaws backend
      → (now : T) (d : D) (due : List (ScheduledTask T)) → due_tasks backend now d ≡ ok due
      → ((k : Uuid) (t : ScheduledTask T) (nr : T)
          → load backend k d ≡ ok t
          → t.state ≡ pending
          → t.next_run ≡ some nr
          → backend.at_most nr now ≡ true
          → Memᴰ t due)
        × ((t : ScheduledTask T)
            → Memᴰ t due
            → (t.state ≡ pending)
              × (nr : T) × (t.next_run ≡ some nr)
              × (backend.at_most nr now ≡ true))
  unfolding due_tasks list_tasks
  due_tasks-exact laws now d due h = elim (Result-cases (list_tasks backend d)) [
    | inl (all, p) ↦
        let e : due ≡ keep_if (is_due backend now) all = ground arith in
        (
          λ k t nr found s n b.
              let (v, q, r) = load-inv k d t found in
              rw e (
                mem-keep_if (is_due backend now) t all (unfold is_due in ground arith) (
                  collect-mem (backend.sled.iter d) [] all t k v p r
                    (laws.stored.iter-get d k v q))),
          λ t m.
              let test : is_due backend now t ≡ true =
                keep_if-mem (is_due backend now) t all (rw e at m) in
              is_due-inv now t test,
        )
    | inr (x, p) ↦ absurd (ground arith)
  ]

  next_round-keeps :
      (now : T) (kind : TaskKind) (task t : ScheduledTask T)
      → next_round backend now kind task ≡ ok t
      → (t.retry_count ≡ task.retry_count) × (t.last_run ≡ task.last_run)
  unfolding next_round
  next_round-keeps now (cron expr) task t h = ground arith
  next_round-keeps now one_shot task t h = ground arith

  -- What `reschedule` makes of a task. A cron task is pending again at the next time of its
  -- schedule, unless its expression does not parse. A one-shot task is completed and is due at no
  -- later time. Neither the count of failures nor the last run is touched.
  next_round-branches :
      (now : T) (task : ScheduledTask T)
      → ((expr : Text) (s : S)
          → parse_schedule backend expr ≡ ok s
          → next_round backend now (cron expr) task
            ≡ ok (record task { next_run = backend.upcoming s now; state = pending }))
        × ((expr : Text) (e : SchedulerError)
            → parse_schedule backend expr ≡ err e
            → next_round backend now (cron expr) task ≡ err e)
        × ((t : ScheduledTask T)
            → next_round backend now one_shot task ≡ ok t
            → (t.state ≡ completed) × ((later : T) → is_due backend later t ≡ false))
        × ((kind : TaskKind) (t : ScheduledTask T)
            → next_round backend now kind task ≡ ok t
            → (t.retry_count ≡ task.retry_count) × (t.last_run ≡ task.last_run))
  unfolding next_round is_due
  next_round-branches now task = (
    λ expr s h. rw h refl,
    λ expr e h. rw h refl,
    λ t h. (ground arith, λ later. ground arith),
    λ kind t h. next_round-keeps now kind task t h,
  )
