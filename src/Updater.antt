-- ===== src/Updater.antt =====
-- scripts/worker_updater.py: the replacement of a worker's container by one of a new image, with a
-- journal from which a crash is recovered.
pub mod Recovery
pub mod Replacement
mod Tests
use Prim.Native.String
use transcriber.Prelude.{
  ℕ, Bool, true, false, ◌&&◌, ◌||◌, not, String, Option, none, some, List, [], ◌∷◌, ◌++◌, ◌==◌,
  if◌then◌else◌,
}
use transcriber.Prelude.Results.{Result, ok, err}

-- What `inspect` says of a container; a label that it lacks is empty.
pub record Container : Type 0 where
  pub ident : String
  pub name : String
  pub image : String
  pub is_running : Bool
  pub is_healthy : Bool
  pub started_at : String
  pub project : String
  pub service : String
  pub role : String
  pub opt_in : String
  pub drain_protocol : String

pub record Pending : Type 0 where
  pub old : String
  pub started : String
  pub name : String
  pub service : String
  pub image : String

-- state.json; `failed` is a dictionary, whose first entry with a key counts.
pub record State : Type 0 where
  pub pending : Option Pending
  pub failed : List (String × String)

-- The requests to Docker that change a container; `undrain` is SIGUSR2 and `drain` SIGUSR1.
pub data Action : Type 0 where
  start undrain remove drain stop : String → Action
  rename create : String → String → Action

-- An APIError.
pub data ApiError : Type 0 where
  refused : ApiError

-- `managed`
unfoldable pub managed : String → Container → Bool
managed project c =
    c.project == project
    && ((c.role == "cpu" || c.role == "gpu")
        && (c.service == String.◌++◌ "worker-" c.role && c.opt_in == "true"))

-- What `recover` asks of Docker, and whether it is a roll-back; by what it finds under the name.
unfoldable pub resume : String → Pending → Container → Result ApiError (List Action × Bool)
unfolding managed
resume project p new =
    if not (managed project new)
    then err refused
    else if not new.is_running
    then ok (start new.ident ∷ [], false)
    else if new.started_at == p.started
    then ok (undrain new.ident ∷ [], false)
    else ok ([], false)

unfoldable pub commit : String → Option Container → Result ApiError (List Action × Bool)
unfolding managed
commit project none = ok ([], false)
commit project (some old) =
    if managed project old then ok (remove old.ident ∷ [], false) else err refused

abbrev pub restore : Pending → Container → List Action
restore p old = rename old.ident p.name ∷ start old.ident ∷ []

unfoldable pub roll_back :
    String → Pending → Option Container → Option Container → Result ApiError (List Action × Bool)
unfolding managed
roll_back project p none new = err refused
roll_back project p (some old) none =
    if managed project old then ok (restore p old, true) else err refused
roll_back project p (some old) (some new) =
    if not (managed project old)
    then err refused
    else if not (managed project new)
    then err refused
    else ok (remove new.ident ∷ restore p old, true)

unfoldable pub plan :
    String → Pending → Option Container → Option Container → Result ApiError (List Action × Bool)
unfolding resume commit roll_back
plan project p old none = roll_back project p old none
plan project p old (some new) =
    if new.ident == p.old
    then resume project p new
    else if managed project new && new.is_healthy
    then commit project old
    else roll_back project p old (some new)

-- The requests in their order, up to the first that raises, and whether none did.
unfoldable pub perform : (Action → Bool) → List Action → List Action × Bool
perform api [] = ([], true)
perform api (action ∷ actions) =
    let (done, all) = perform api actions in
    if api action then (action ∷ done, all) else (action ∷ [], false)

-- What a call leaves: the state on disk, its requests, and whether it returns.
pub record Outcome : Type 0 where
  pub state : State
  pub requests : List Action
  pub returns : Bool

abbrev pub settle : State → Pending → Bool → State
settle state p back = record {
  pending = none;
  failed = if back then (p.service, p.image) ∷ state.failed else state.failed;
}

module _ (project : String) (inspect : String → Option Container) (api : Action → Bool) where
  -- `recover`, with a pending entry
  unfoldable pub recover_from : State → Pending → Outcome
  unfolding plan perform
  recover_from state p = elim (plan project p (inspect p.old) (inspect p.name)) [
    | err e ↦ record { state = state; requests = []; returns = false }
    | ok (actions, back) ↦
        let (done, all) = perform api actions in
        record {
          state = if all then settle state p back else state;
          requests = done;
          returns = all;
        }
  ]

  unfoldable pub recover_pending : State → Option Pending → Outcome
  unfolding recover_from
  recover_pending state none = record { state = state; requests = []; returns = true }
  recover_pending state (some p) = recover_from state p

  -- `recover`
  abbrev pub recover : State → Outcome
  recover state = recover_pending state state.pending
