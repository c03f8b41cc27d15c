-- ===== src/Base/Sled.antt =====
-- The embedded database `sled`, which crates/roos-memory and crates/roos-scheduler both call, as an
-- interface with the laws that its documentation promises. A key is the number that its 16 bytes
-- spell, an error its displayed text.
use mathlib.Core.Path.{◌≡◌}
use mathlib.Core.Option.{Option, none, some}
use mathlib.Core.List.{List, Memᴰ}
use Prim.Native.Nat.{ℕ}
use roos.Base.Tests.{nat_eq, if◌then◌else◌}
use roos.Base.Bytes.{Text}
use roos.Base.Fallible.{Result, ok}

-- `D` is the database and `B` its byte strings.
pub record Sled (D B : Type 0) : Type 0 where
  pub get : D → ℕ → Result Text (Option B)
  pub insert : ℕ → B → D → Result Text (Unit {0}) × D
  pub remove : ℕ → D → Result Text (Unit {0}) × D
  pub iter : D → List (Result Text (ℕ × B))

-- A write that succeeds is read back under its key and leaves the other keys alone; the iterator
-- yields every entry that can be read.
pub record SledLaws {D B : Type 0} (sled : Sled D B) : Type 0 where
  pub get-insert :
      (d d' : D) (k j : ℕ) (b : B)
      → sled.insert k b d ≡ (ok tt, d')
      → sled.get d' j ≡ (if nat_eq k j then ok (some b) else sled.get d j)
  pub get-remove :
      (d d' : D) (k j : ℕ)
      → sled.remove k d ≡ (ok tt, d')
      → sled.get d' j ≡ (if nat_eq k j then ok none else sled.get d j)
  pub iter-get :
      (d : D) (k : ℕ) (b : B) → sled.get d k ≡ ok (some b) → Memᴰ (ok (k, b)) (sled.iter d)

-- `serde_json` at one type: what was written is read back.
pub record Codec (A B : Type 0) : Type 0 where
  pub to_vec : A → Result Text B
  pub from_slice : B → Result Text A

pub record CodecLaws {A B : Type 0} (codec : Codec A B) : Type 0 where
  pub from_slice-to_vec : (a : A) (b : B) → codec.to_vec a ≡ ok b → codec.from_slice b ≡ ok a
