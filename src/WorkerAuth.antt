-- ===== src/WorkerAuth.antt =====
-- whisper/worker_auth.py: the registry of the workers' token hashes, and who a header is.
pub mod Identity
mod Tests
use Prim.Native.Char.{code}
use Prim.Native.String.{[] as nil, ◌∷◌ as ◌cons◌, count, slice, len}
use text.Mathlib.Text.{starts_with}
use transcriber.Prelude.{
  ℕ, ◌≤◌, ◌≡◌, refl, Bool, true, false, ◌&&◌, ◌||◌, not, String, Option, none, some, List, [], ◌∷◌,
  ◌==◌, leb, eqb, length, if◌then◌else◌, arith, Option-cases, Bool-cases, inl, inr, ==→≡, ==_refl,
}
use transcriber.Prelude.Table

-- Every character's code passes the test.
unfoldable pub all_codes : (ℕ → Bool) → String → Bool
all_codes p nil = true
all_codes p (c cons cs) = p (code c) && all_codes p cs

abbrev pub between : ℕ → ℕ → ℕ → Bool
between low high n = leb low n && leb n high

-- `not 32 <= len(token) <= 512 or any(not 33 <= ord(c) <= 126 for c in token)`, negated
abbrev pub is_token : String → Bool
is_token token = between 32 512 (count token) && all_codes (between 33 126) token

-- The loop of `authenticate`: the last entry with the digest.
unfoldable pub identify : String → Option String → List (String × String) → Option String
identify digest identity [] = identity
identify digest identity ((worker_id, expected) ∷ rest) =
    identify digest (if digest == expected then some worker_id else identity) rest

-- `re.fullmatch(r"[A-Za-z0-9_.:-]{1,128}", worker_id)`, by the characters' codes
abbrev pub is_id_code : ℕ → Bool
is_id_code n =
    between 65 90 n
    || (between 97 122 n || (between 48 57 n || (eqb n 95 || (eqb n 46 || (eqb n 58 || eqb n 45)))))

unfoldable pub is_worker_id : String → Bool
unfolding all_codes
is_worker_id worker_id = between 1 128 (count worker_id) && all_codes is_id_code worker_id

-- `re.fullmatch("[0-9a-f]{64}", digest)`
unfoldable pub is_digest : String → Bool
unfolding all_codes
is_digest digest =
    eqb (count digest) 64 && all_codes (λ n. between 48 57 n || between 97 102 n) digest

abbrev pub has_digest : String → String × String → Bool
has_digest digest (worker_id, expected) = expected == digest

-- `len(set(hashes.values())) == len(hashes)`
unfoldable pub are_distinct : List (String × String) → Bool
are_distinct [] = true
are_distinct (entry ∷ rest) = not (Table.exists (has_digest entry.1) rest) && are_distinct rest

unfoldable pub are_entries : List (String × String) → Bool
unfolding is_worker_id is_digest
are_entries [] = true
are_entries ((worker_id, digest) ∷ rest) =
    (is_worker_id worker_id && is_digest digest) && are_entries rest

-- The checks of `from_file` on the registry's workers.
unfoldable pub is_registry : List (String × String) → Bool
unfolding are_distinct are_entries
is_registry hashes = between 1 128 (length hashes) && (are_entries hashes && are_distinct hashes)

module _ (sha256 : String → String) where
  -- `authenticate`; no header is `none`
  unfoldable pub authenticate : List (String × String) → Option String → Option String
  unfolding identify all_codes
  authenticate hashes none = none
  authenticate hashes (some authorization) =
      let token = slice authorization 7 (len authorization) in
      if not (starts_with authorization "Bearer ")
      then none
      else if is_token token
      then identify (sha256 token) none hashes
      else none
