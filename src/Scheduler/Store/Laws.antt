-- ===== src/Scheduler/Store/Laws.antt =====
-- Saving and loading tasks in crates/roos-scheduler/src/scheduler.rs.
use roos.Base.{◌≡◌, inl, inr, ok, Result-cases, nat_eq, if◌then◌else◌, arith}
use roos.Base.Sled.{SledLaws, CodecLaws}
use roos.Core.Types.{Uuid}
use roos.Scheduler.Task.{ScheduledTask}
use roos.Scheduler.Backend.{Backend}
use roos.Scheduler.Store.{save, load}

-- The database and the encoding behave as documented.
pub record BackendLaws {D B S T : Type 0} (backend : Backend D B S T) : Type 0 where
  pub stored : SledLaws backend.sled
  pub encoded : CodecLaws backend.codec

module _ {D B S T : Type 0} (backend : Backend D B S T) where
  save-inv :
      (task : ScheduledTask T) (d d' : D)
      → save backend task d ≡ (ok tt, d')
      → (b : B) × (backend.codec.to_vec task ≡ ok b)
        × (backend.sled.insert task.id b d ≡ (ok tt, d'))
  unfolding save
  save-inv task d d' h = elim (Result-cases (backend.codec.to_vec task)) [
    | inl (b, p) ↦ (b, p, ground arith)
    | inr (e, p) ↦ absurd (ground arith)
  ]

  -- A task is stored under its own id.
  abbrev pub IsKeyed : D → Type 0
  IsKeyed d = (k : Uuid) (t : ScheduledTask T) → load backend k d ≡ ok t → t.id ≡ k

  module _ (laws : BackendLaws backend) where
    -- After a successful save, a load under the task's id gives the task, and a load under any
    -- other id gives what it gave.
    pub load-save :
        (task : ScheduledTask T) (d d' : D) (j : Uuid)
        → save backend task d ≡ (ok tt, d')
        → load backend j d' ≡ (if nat_eq task.id j then ok task else load backend j d)
    unfolding load
    load-save task d d' j h =
        let (b, p, q) = save-inv task d d' h in
        ground (
          arith,
          laws.stored.get-insert d d' task.id j b q,
          laws.encoded.from_slice-to_vec task b p,
        )
