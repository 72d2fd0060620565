-- ===== src/Admission.antt =====
-- whisper/admission.py: the ingress processes share a bounded volume, one lock around each check
-- with the write that it admits.
pub mod Bounds
pub mod Slots
mod Tests
use transcriber.Prelude.{
  ℕ, ◌+◌, ◌-◌, ◌*◌, ◌/◌, max, Bool, true, false, not, String, Option, none, some, List, [], ◌∷◌,
  ◌==◌, ltb, leb, eqb, if◌then◌else◌,
}
use transcriber.Prelude.Results.{Result, ok, err}
use transcriber.Prelude.Table

pub record UploadLimits : Type 0 where
  pub audio_bytes : ℕ
  pub storage_bytes : ℕ
  pub min_free_bytes : ℕ
  pub concurrent_uploads : ℕ

-- A job's file, as `stat` reports it.
pub record File : Type 0 where
  pub path : String
  pub st_size : ℕ
  pub st_blocks : ℕ

-- A token of the control directory, and whether a process holds the lock on it.
pub record Token : Type 0 where
  pub path : String
  pub held : Bool

-- The volume: the files below the root but for the control directory, its tokens, and what
-- `statvfs` and `disk_usage` report.
pub record Volume : Type 0 where
  pub files : List File
  pub slots : List Token
  pub f_frsize : ℕ
  pub free : ℕ

-- The texts of `CapacityExceeded`.
pub data CapacityExceeded : Type 0 where
  budget_exhausted reserve_reached too_many_uploads : CapacityExceeded

-- What `write` raises.
pub data WriteError : Type 0 where
  refused : CapacityExceeded → WriteError
  incomplete : WriteError

abbrev pub file_bytes : File → ℕ
file_bytes file = max file.st_size (file.st_blocks * 512)

unfoldable pub storage_bytes : List File → ℕ
storage_bytes [] = 0
storage_bytes (file ∷ files) = file_bytes file + storage_bytes files

-- `((extra + block - 1) // block) * block`
unfoldable pub allocation : ℕ → ℕ → ℕ
allocation block extra = ((extra + block - 1) / block) * block

-- `free - allocation < min_free_bytes`, with the allocation, which may be the larger, on the other
-- side
unfoldable pub check_capacity : UploadLimits → ℕ → Volume → Option CapacityExceeded
unfolding storage_bytes allocation
check_capacity limits extra volume =
    let allocated = allocation volume.f_frsize extra in
    if ltb limits.storage_bytes (storage_bytes volume.files + allocated)
    then some budget_exhausted
    else if ltb volume.free (limits.min_free_bytes + allocated)
    then some reserve_reached
    else none

-- `_active_uploads`: how many tokens a process holds; the others are unlinked.
unfoldable pub active_uploads : Volume → ℕ × Volume
active_uploads volume = (
  Table.count (λ t. t.held) volume.slots,
  record volume { slots = Table.select (λ t. t.held) volume.slots },
)

-- `upload` up to its `yield`, with the name of its token
unfoldable pub upload : UploadLimits → String → Volume → Volume × Result CapacityExceeded String
unfolding active_uploads check_capacity
upload limits token volume =
    let (active, swept) = active_uploads volume in
    if leb limits.concurrent_uploads active
    then (swept, err too_many_uploads)
    else elim (check_capacity limits 0 swept) [
      | some e ↦ (swept, err e)
      | none ↦
          (record swept { slots = record { path = token; held = true } ∷ swept.slots }, ok token)
    ]

-- the `finally` of `upload`
unfoldable pub finish_upload : String → Volume → Volume
finish_upload token volume = record volume {
  slots = Table.select (λ t. not (t.path == token)) volume.slots;
}

-- `write` of that many bytes; `os_write` is the system's: the volume after it, and its count.
unfoldable pub write :
    (Volume → String → ℕ → Volume × ℕ)
    → UploadLimits
    → String
    → ℕ
    → Volume
    → Volume × Result {0, 0} WriteError Unit
unfolding check_capacity
write os_write limits audio size volume =
    if eqb size 0 then (volume, ok tt) else elim (check_capacity limits size volume) [
      | some e ↦ (volume, err (refused e))
      | none ↦
          let (after, written) = os_write volume audio size in
          (after, if eqb written size then ok tt else err incomplete)
    ]
