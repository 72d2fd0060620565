-- ===== src/Admission/Tests.antt =====
-- A volume of 4096-byte blocks with room for two uploads.
use transcriber.Prelude.{ℕ, ◌-◌, ◌≡◌, refl, min, true, String, [], ◌∷◌, arith}
use transcriber.Prelude.Table
use transcriber.Admission
use transcriber.Admission.{Volume, UploadLimits, Token, storage_bytes, allocation, file_bytes}
use transcriber.Admission.Bounds
use transcriber.Admission.Bounds.{IsBounded, IsFrugal, Run, Run-IsBounded, crash, begin, write, die}
use transcriber.Admission.Slots.{upload-gives_back}

abbrev limits : UploadLimits
limits = record {
  audio_bytes = 1000;
  storage_bytes = 10000;
  min_free_bytes = 5000;
  concurrent_uploads = 1;
}

-- A file system that takes each write into a file of its own, and no more than its blocks hold.
abbrev write_file : Volume → String → ℕ → Volume × ℕ
write_file v path n =
    let size = min n (allocation v.f_frsize n) in
    (
      record v {
        files = record { path = path; st_size = size; st_blocks = 0 } ∷ v.files;
        free = v.free - allocation v.f_frsize n;
      },
      size,
    )

write_file-IsFrugal : IsFrugal write_file
unfolding Admission.storage_bytes
write_file-IsFrugal = record {
  stored = λ v path n. omega arith;
  taken = λ v path n. omega arith;
  tokens = λ v path n. refl;
}

abbrev fresh : Volume
fresh = record { files = []; slots = []; f_frsize = 4096; free = 100000 }

fresh-IsBounded : IsBounded limits fresh
unfolding Admission.storage_bytes Table.count
fresh-IsBounded = record { budget = omega arith; reserve = omega arith; uploads = omega arith }

abbrev uploading : Volume
uploading = (Admission.upload limits "a.slot" fresh).0

abbrev written : Volume
written = (Admission.write write_file limits "a" 100 uploading).0

abbrev abandoned : Volume
abandoned = crash "a.slot" written

some_steps : Run write_file limits fresh abandoned
some_steps =
    Bounds.step (Bounds.step (Bounds.step Bounds.start (begin "a.slot")) (write "a" 100))
      (die "a.slot")

Run-IsBounded_example : IsBounded limits abandoned
Run-IsBounded_example = Run-IsBounded write_file-IsFrugal limits fresh fresh-IsBounded some_steps

-- One upload has begun, and its file has grown.
abbrev begun : Volume
begun = record {
  files = record { path = "a"; st_size = 100; st_blocks = 8 } ∷ [];
  slots = record { path = "a.slot"; held = true } ∷ [];
  f_frsize = 4096;
  free = 95904;
}

upload-gives_back_example :
    (Admission.upload limits "b.slot" (crash "a.slot" begun)
      ≡ Admission.upload limits "b.slot" (record begun { slots = [] }))
    × (Admission.upload limits "b.slot" (Admission.finish_upload "a.slot" begun)
        ≡ Admission.upload limits "b.slot" (record begun { slots = [] }))
upload-gives_back_example =
    upload-gives_back "a.slot" fresh (unfold Table.count in refl) limits "b.slot" begun (
      unfold Admission.upload Admission.active_uploads Admission.check_capacity
        Admission.storage_bytes Admission.allocation Table.count Table.select in
      refl)
