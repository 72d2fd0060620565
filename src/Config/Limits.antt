-- ===== src/Config/Limits.antt =====
-- whisper/limits.py, and the limits of whisper/admission.py that come from the environment.
use transcriber.Prelude.{ℕ, ◌<◌, ◌≡◌, Option, none, some, eqb, if◌then◌else◌, arith}
use transcriber.Config.{Integer, natural, negative}
use transcriber.Admission.{UploadLimits}

-- A variable that is set: the `int` of its value, or none where that raises.
abbrev pub Variable : Type 0
Variable = Option (Option Integer)

-- `positive_limit`, and the same test in `audio_limit`; none is their ValueError
unfoldable pub positive_limit : ℕ → Variable → Option ℕ
positive_limit default none = if eqb default 0 then none else some default
positive_limit default (some none) = none
positive_limit default (some (some (natural n))) = if eqb n 0 then none else some n
positive_limit default (some (some (negative n))) = none

unfoldable pub audio_limit : Variable → Option ℕ
unfolding positive_limit
audio_limit max_audio_bytes = positive_limit 268435456 max_audio_bytes

-- `UploadLimits.from_env`
unfoldable pub from_env : Variable → Variable → Variable → Variable → Option UploadLimits
unfolding positive_limit audio_limit
from_env max_audio max_storage min_free max_uploads = elim (audio_limit max_audio) [
  | none ↦ none
  | some audio ↦ elim (positive_limit 8589934592 max_storage) [
    | none ↦ none
    | some storage ↦ elim (positive_limit 1073741824 min_free) [
      | none ↦ none
      | some free ↦ elim (positive_limit 4 max_uploads) [
        | none ↦ none
        | some uploads ↦ some (record {
          audio_bytes = audio;
          storage_bytes = storage;
          min_free_bytes = free;
          concurrent_uploads = uploads;
        })
      ]
    ]
  ]
]

positive_limit-positive :
    (default : ℕ) (raw : Variable) (n : ℕ) → positive_limit default raw ≡ some n → 0 < n
unfolding positive_limit
positive_limit-positive default raw n e = ground arith

-- Limits that the environment yields are all positive.
from_env-positive :
    (max_audio max_storage min_free max_uploads : Variable) (limits : UploadLimits)
    → from_env max_audio max_storage min_free max_uploads ≡ some limits
    → (0 < limits.audio_bytes)
      × (0 < limits.storage_bytes)
      × (0 < limits.min_free_bytes)
      × (0 < limits.concurrent_uploads)
unfolding from_env audio_limit
from_env-positive max_audio max_storage min_free max_uploads limits e = ground (
  arith,
  positive_limit-positive 268435456 max_audio limits.audio_bytes,
  positive_limit-positive 8589934592 max_storage limits.storage_bytes,
  positive_limit-positive 1073741824 min_free limits.min_free_bytes,
  positive_limit-positive 4 max_uploads limits.concurrent_uploads,
)
