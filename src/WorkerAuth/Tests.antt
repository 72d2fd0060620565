-- ===== src/WorkerAuth/Tests.antt =====
-- A registry of one worker, whose token's hash is made up.
use Prim.Native.String
use Prim.Native.String.{slice, len}
use text.Mathlib.Text.{starts_with}
use transcriber.Prelude.{◌≡◌, refl, true, String, some, List, [], ◌∷◌, inl}
use transcriber.Prelude.Table
use transcriber.Prelude.Table.Keys.{In}
use transcriber.WorkerAuth
use transcriber.WorkerAuth.{is_token, is_registry, authenticate}
use transcriber.WorkerAuth.Identity.{authenticate-registered, authenticate-bearer}

abbrev digest : String
digest = "0123456789abcdef0123456789abcdef0123456789abcdef0123456789abcdef"

abbrev sha256 : String → String
sha256 token = digest

abbrev hashes : List (String × String)
hashes = ("gpu-1", digest) ∷ []

abbrev token : String
token = "abcdefghijklmnopqrstuvwxyz012345"

hashes_accepted : is_registry hashes ≡ true
unfolding WorkerAuth.is_registry WorkerAuth.are_entries WorkerAuth.are_distinct
    WorkerAuth.is_worker_id WorkerAuth.is_digest WorkerAuth.all_codes Table.exists
hashes_accepted = refl

authenticate-bearer_example :
    authenticate sha256 hashes (some (String.◌++◌ "Bearer " token)) ≡ some "gpu-1"
authenticate-bearer_example =
    authenticate-bearer sha256 hashes token "gpu-1" hashes_accepted
      (unfold WorkerAuth.all_codes in refl) (inl refl)

abbrev header : String
header = "Bearer abcdefghijklmnopqrstuvwxyz012345"

authenticate-registered_example :
    (h : String) × (some header ≡ some h)
    × (starts_with h "Bearer " ≡ true)
    × (is_token (slice h 7 (len h)) ≡ true)
    × In ("gpu-1", sha256 (slice h 7 (len h))) hashes
authenticate-registered_example =
    authenticate-registered sha256 hashes (some header) "gpu-1"
      (unfold WorkerAuth.authenticate WorkerAuth.identify WorkerAuth.all_codes in refl)
