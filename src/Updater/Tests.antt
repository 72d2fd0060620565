-- ===== src/Updater/Tests.antt =====
-- An update whose new container never gets healthy, and the recovery that rolls it back.
use transcriber.Prelude.{
  ◌≡◌, refl, Bool, true, false, String, Option, none, some, [], ◌∷◌, ◌==◌, inl, All, if◌then◌else◌,
}
use transcriber.Prelude.Results.{ok}
use transcriber.Prelude.Table.Keys.{In}
use transcriber.Updater
use transcriber.Updater.{
  Container, Pending, State, Action, start, remove, rename, managed, plan, recover_from,
}
use transcriber.Updater.Replacement.{Request, update}
use transcriber.Updater.Recovery.{
  IsAllowed, recover_from-IsAllowed, recover_from-replaced, update_rolled_back,
}

abbrev worker : String → String → Bool → Container
worker ident image healthy = record {
  ident = ident;
  name = "worker";
  image = image;
  is_running = true;
  is_healthy = healthy;
  started_at = "10:00";
  project = "transcriber";
  service = "worker-gpu";
  role = "gpu";
  opt_in = "true";
  drain_protocol = "1";
}

abbrev pending : Pending
pending = record {
  old = "c1";
  started = "10:00";
  name = "worker";
  service = "gpu";
  image = "worker:2";
}

abbrev state : State
state = record { pending = some pending; failed = [] }

-- Docker with the old container and a new one under its name.
abbrev inspect : Bool → String → Option Container
inspect healthy name =
    if name == "c1"
    then some (worker "c1" "i1" true)
    else if name == "worker"
    then some (worker "c2" "i2" healthy)
    else none

abbrev api : Action → Bool
api action = true

recover_from-IsAllowed_example :
    All
      (IsAllowed "transcriber" pending (inspect false "c1") (inspect false "worker"))
      (recover_from "transcriber" (inspect false) api state pending).requests
recover_from-IsAllowed_example =
    recover_from-IsAllowed "transcriber" (inspect false) api state pending

removed : In (remove "c1") (recover_from "transcriber" (inspect true) api state pending).requests
unfolding recover_from plan Updater.commit Updater.managed Updater.perform
removed = inl refl

recover_from-replaced_example :
    (n : Container) × (inspect true "worker" ≡ some n)
    × (managed "transcriber" n ≡ true)
    × (n.is_healthy ≡ true)
recover_from-replaced_example =
    recover_from-replaced "transcriber" (inspect true) api state pending removed

rolled_back :
    plan "transcriber" pending (inspect false "c1") (inspect false "worker")
    ≡ ok (remove "c2" ∷ rename "c1" "worker" ∷ start "c1" ∷ [], true)
unfolding plan Updater.roll_back Updater.managed
rolled_back = refl

returned : (recover_from "transcriber" (inspect false) api state pending).returns ≡ true
unfolding recover_from plan Updater.roll_back Updater.managed Updater.perform
returned = refl

abbrev request : Request
request = record {
  old = worker "c1" "i1" true;
  name = "worker";
  backup = "worker-rollback-c1";
  image = "worker:2";
  target = some "i2";
}

update_rolled_back_example :
    let after = (recover_from "transcriber" (inspect false) api state pending).state in
    update "transcriber" (inspect false) api (inspect true) api "c3" after request []
    ≡ record { state = after; requests = []; returns = true }
update_rolled_back_example =
    update_rolled_back "transcriber" (inspect false) api (inspect true) api "c3" state pending
      (remove "c2" ∷ rename "c1" "worker" ∷ start "c1" ∷ []) request [] rolled_back returned refl
      refl
