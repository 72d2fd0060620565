-- ===== src/Admission/Bounds.antt =====
-- The budget, the free-space reserve and the number of uploads hold along every run.
use transcriber.Prelude.{
  ℕ, ◌+◌, ◌≤◌, ◌≡◌, Bool, false, not, String, none, List, [], ◌∷◌, ◌==◌, arith, Option-cases,
  Bool-cases, inl, inr, eqb,
}
use transcriber.Prelude.Table
use transcriber.Prelude.Table.Laws.{count-select_le}
use transcriber.Admission.{Volume, UploadLimits, Token, File, storage_bytes, allocation, file_bytes}
use transcriber.Admission

pub record IsBounded (limits : UploadLimits) (volume : Volume) : Type 0 where
  pub budget : storage_bytes volume.files ≤ limits.storage_bytes
  pub reserve : limits.min_free_bytes ≤ volume.free
  pub uploads : Table.count (λ (t : Token). t.held) volume.slots ≤ limits.concurrent_uploads

-- What a write of n bytes to a file may take: no more than n bytes in whole blocks.
pub record IsFrugal (os_write : Volume → String → ℕ → Volume × ℕ) : Type 0 where
  pub stored :
      (v : Volume) (path : String) (n : ℕ)
      → storage_bytes (os_write v path n).0.files ≤ storage_bytes v.files + allocation v.f_frsize n
  pub taken :
      (v : Volume) (path : String) (n : ℕ)
      → v.free ≤ (os_write v path n).0.free + allocation v.f_frsize n
  pub tokens : (v : Volume) (path : String) (n : ℕ) → (os_write v path n).0.slots ≡ v.slots

-- A process that dies drops its locks.
abbrev pub crash : String → Volume → Volume
crash token volume = record volume {
  slots = Table.update (λ t. t.path == token) (λ t. record t { held = false }) volume.slots;
}

-- The steps of the processes that share a volume. Cleanup may remove a file at any time.
pub data Step (os_write : Volume → String → ℕ → Volume × ℕ) (limits : UploadLimits) (v : Volume)
    : Volume → Type 0 where
  begin : (token : String) → Step os_write limits v (Admission.upload limits token v).0
  finish : (token : String) → Step os_write limits v (Admission.finish_upload token v)
  write :
      (path : String) (n : ℕ) → Step os_write limits v (Admission.write os_write limits path n v).0
  die : (token : String) → Step os_write limits v (crash token v)
  remove :
      (path : String) (freed : ℕ)
      → Step os_write limits v (record v {
        files = Table.select (λ f. not (f.path == path)) v.files;
        free = v.free + freed;
      })

pub data Run (os_write : Volume → String → ℕ → Volume × ℕ) (limits : UploadLimits) (v : Volume)
    : Volume → Type 0 where
  start : Run os_write limits v v
  step :
      {w w' : Volume}
      → Run os_write limits v w
      → Step os_write limits w w'
      → Run os_write limits v w'

storage_bytes-select :
    (p : File → Bool) (files : List File)
    → storage_bytes (Table.select p files) ≤ storage_bytes files
unfolding Admission.storage_bytes Table.select
storage_bytes-select p [] = omega arith
storage_bytes-select p (f ∷ fs) = ground (arith, storage_bytes-select p fs)

count-crash :
    (token : String) (slots : List Token)
    → Table.count
        (λ (t : Token). t.held)
        (Table.update (λ t. t.path == token) (λ t. record t { held = false }) slots)
      ≤ Table.count (λ (t : Token). t.held) slots
unfolding Table.count Table.update
count-crash token [] = omega arith
count-crash token (t ∷ ts) = ground (arith, count-crash token ts)

-- The capacity that a check has found.
pub check_capacity-none :
    (limits : UploadLimits) (extra : ℕ) (v : Volume)
    → Admission.check_capacity limits extra v ≡ none
    → (storage_bytes v.files + allocation v.f_frsize extra ≤ limits.storage_bytes)
      × (limits.min_free_bytes + allocation v.f_frsize extra ≤ v.free)
unfolding Admission.check_capacity
check_capacity-none limits extra v e = ground arith

module _ {os_write : Volume → String → ℕ → Volume × ℕ} (frugal : IsFrugal os_write)
    (limits : UploadLimits) where
  upload-IsBounded :
      (token : String) (v : Volume)
      → IsBounded limits v
      → IsBounded limits (Admission.upload limits token v).0
  unfolding Admission.upload Admission.active_uploads Table.count
  upload-IsBounded token v h =
      let few = count-select_le (λ (t : Token). t.held) (λ (t : Token). t.held) v.slots in
      record {
        budget = ground (arith, h.budget);
        reserve = ground (arith, h.reserve);
        uploads = ground (arith, few, h.uploads);
      }

  write-IsBounded :
      (path : String) (n : ℕ) (v : Volume)
      → IsBounded limits v
      → IsBounded limits (Admission.write os_write limits path n v).0
  unfolding Admission.write
  write-IsBounded path n v h = elim (Bool-cases (eqb n 0)) [
    | inl nothing ↦ rw nothing h
    | inr some_bytes ↦ rw some_bytes (elim (Option-cases (Admission.check_capacity limits n v)) [
      | inr (e, refusal) ↦ rw (refusal, Admission.write) h
      | inl admitted ↦
          let (fits, leaves) = check_capacity-none limits n v admitted in
          rw admitted (record {
            budget = omega (arith, frugal.stored v path n, fits);
            reserve = omega (arith, frugal.taken v path n, leaves);
            uploads = rw (frugal.tokens v path n) h.uploads;
          })
    ])
  ]

  Step-IsBounded :
      (v : Volume) {w : Volume} → Step os_write limits v w → IsBounded limits v → IsBounded limits w
  unfolding Admission.finish_upload
  Step-IsBounded v (begin token) h = upload-IsBounded token v h
  Step-IsBounded v (finish token) h = record {
    budget = h.budget;
    reserve = h.reserve;
    uploads = omega (
      arith,
      count-select_le (λ (t : Token). t.held) (λ t. not (t.path == token)) v.slots,
      h.uploads,
    );
  }
  Step-IsBounded v (write path n) h = write-IsBounded path n v h
  Step-IsBounded v (die token) h = record {
    budget = h.budget;
    reserve = h.reserve;
    uploads = omega (arith, count-crash token v.slots, h.uploads);
  }
  Step-IsBounded v (remove path freed) h = record {
    budget = omega (arith, storage_bytes-select (λ f. not (f.path == path)) v.files, h.budget);
    reserve = omega (arith, h.reserve);
    uploads = h.uploads;
  }

  -- On a file system whose writes take no more than their bytes in whole blocks, the uploads that
  -- processes begin, write and end, the deaths of processes and the removals of files keep a volume
  -- that starts so within its byte budget, above its free-space reserve, and at no more held upload
  -- tokens than concurrent uploads.
  pub Run-IsBounded :
      (v : Volume) {w : Volume} → IsBounded limits v → Run os_write limits v w → IsBounded limits w
  Run-IsBounded v h start = h
  Run-IsBounded v h (step {w = w} r s) = Step-IsBounded w s (Run-IsBounded v h r)
