-- ===== src/Updater/Replacement.antt =====
-- `update` of scripts/worker_updater.py: draining, stopping and replacing one worker.
use transcriber.Prelude.{
  Bool, true, false, ◌&&◌, not, String, Option, none, some, List, [], ◌∷◌, ◌++◌, ◌==◌,
  if◌then◌else◌,
}
use transcriber.Updater.{
  Container, Pending, State, Action, drain, stop, rename, create, start, Outcome, perform, recover,
}

-- `self.state["failed"].get(role)`
unfoldable pub failed_image : String → List (String × String) → Option String
failed_image role [] = none
failed_image role ((key, image) ∷ rest) =
    let later = failed_image role rest in if key == role then some image else later

abbrev pub is_image : Option String → String → Bool
is_image none image = false
is_image (some failed) image = failed == image

-- What `update` is given: the container, its name without the slash, the name of its backup, the
-- approved image and the ID that it is pulled under, or none where the pull raises.
pub record Request : Type 0 where
  pub old : Container
  pub name : String
  pub backup : String
  pub image : String
  pub target : Option String

-- A look at the drain: `none` where it raises; then whether `STOP` or the deadline ends the wait.
pub data Look : Type 0 where
  raises : Look
  drained : Look
  waiting : Bool → Look

pub data Wait : Type 0 where
  ready deferred broken : Wait

-- the loop over `drained`; without a further look it is deferred
unfoldable pub wait_drained : List Look → Wait
wait_drained [] = deferred
wait_drained (raises ∷ looks) = broken
wait_drained (drained ∷ looks) = ready
wait_drained (waiting true ∷ looks) = deferred
wait_drained (waiting false ∷ looks) = wait_drained looks

-- The early returns of `update`.
unfoldable pub is_due : State → Request → Bool
unfolding failed_image
is_due state r =
    not (is_image (failed_image r.old.role state.failed) r.image)
    && (not (is_image r.target r.old.image) && (r.old.drain_protocol == "1" && r.old.is_healthy))

abbrev pub journal : Request → Pending
journal r = record {
  old = r.old.ident;
  started = r.old.started_at;
  name = r.name;
  service = r.old.role;
  image = r.image;
}

-- The requests of the `try`; the created container is named by what Docker returns.
unfoldable pub replace : (Action → Bool) → String → Request → List Look → List Action × Bool
unfolding perform wait_drained
replace api created r looks =
    let before = perform api (drain r.old.ident ∷ []) in
    let after = perform api (
      stop r.old.ident
      ∷ rename r.old.ident r.backup
      ∷ create r.name r.image
      ∷ start created
      ∷ []) in
    if not before.1 then before else elim (wait_drained looks) [
      | broken ↦ (before.0, false)
      | deferred ↦ before
      | ready ↦ (before.0 ++ after.0, after.1)
    ]

module _ (project : String) (inspect : String → Option Container) (api : Action → Bool) where
  -- `self.recover()` in the `try`, with what Docker answers to the one of the `except`, which follows
  -- where the first raises.
  unfoldable pub recover_twice : (String → Option Container) → (Action → Bool) → State → Outcome
  recover_twice inspect_again api_again state =
      let first = recover project inspect api state in
      let second = recover project inspect_again api_again first.state in
      if first.returns then first else record {
        state = second.state;
        requests = first.requests ++ second.requests;
        returns = false;
      }

  -- `update`: the wait for the new container's health changes nothing, and however the `try` ends,
  -- `recover` follows. A pull that raises leaves at once.
  unfoldable pub update :
      (String → Option Container) → (Action → Bool) → String → State → Request → List Look → Outcome
  unfolding is_due replace recover_twice
  update inspect_again api_again created state r looks =
      let state' = record state { pending = some (journal r) } in
      let (done, completes) = replace api created r looks in
      let recovered =
        if completes
        then recover_twice inspect_again api_again state'
        else recover project inspect api state' in
      if is_image (failed_image r.old.role state.failed) r.image
      then record { state = state; requests = []; returns = true }
      else elim r.target [
        | none ↦ record { state = state; requests = []; returns = false }
        | some target ↦
            if not (is_due state r)
            then record { state = state; requests = []; returns = true }
            else record {
              state = recovered.state;
              requests = done ++ recovered.requests;
              returns = completes && recovered.returns;
            }
      ]
