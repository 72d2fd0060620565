-- ===== src/Updater/Recovery.antt =====
-- What a recovery of scripts/worker_updater.py touches, and what it leaves for the next update.
use transcriber.Prelude.{
  ◌≡◌, ◌⊎◌, refl, Bool, true, false, ◌&&◌, String, Option, none, some, List, [], ◌∷◌, ◌==◌, inl,
  inr, arith, Bool-cases, &&-cases, ==_refl, All,
}
use transcriber.Prelude.Results.{Result, ok, err, Result-cases}
use transcriber.Prelude.Table.Keys.{In}
use transcriber.Updater
use transcriber.Updater.{
  Container, Pending, State, Action, start, undrain, remove, drain, stop, rename, create, Outcome,
  managed, resume, commit, restore, roll_back, plan, perform, recover_from, recover, settle,
}
use transcriber.Updater.Replacement.{Request, Look, failed_image, update}

-- The container that a request changes, by the name or ID it is given.
abbrev pub target_of : Action → String
target_of (start id) = id
target_of (undrain id) = id
target_of (remove id) = id
target_of (drain id) = id
target_of (stop id) = id
target_of (rename id name) = id
target_of (create name image) = name

module _ (project : String) (p : Pending) where
  -- The request changes one of the two containers, and that one is managed.
  abbrev pub IsAllowed : Option Container → Option Container → Action → Type 0
  IsAllowed old new action =
      (c : Container) × ((old ≡ some c) ⊎ (new ≡ some c))
      × (managed project c ≡ true)
      × (target_of action ≡ c.ident)

  abbrev requests : Result Updater.ApiError (List Action × Bool) → List Action
  requests (ok (actions, back)) = actions
  requests (err e) = []

  resume-All :
      (P : Action → Type 0) (n : Container)
      → (managed project n ≡ true → P (start n.ident) × P (undrain n.ident))
      → All P (requests (resume project p n))
  unfolding resume
  resume-All P n allowed = elim (Bool-cases (managed project n)) [
    | inr foreign ↦ rw foreign tt
    | inl ours ↦ elim (Bool-cases n.is_running) [
      | inr stopped ↦ rw (ours, stopped) ((allowed ours).0, tt)
      | inl runs ↦ elim (Bool-cases (n.started_at == p.started)) [
        | inl same ↦ rw (ours, runs, same) ((allowed ours).1, tt)
        | inr later ↦ rw (ours, runs, later) tt
      ]
    ]
  ]

  resume-IsAllowed :
      (old : Option Container) (n : Container)
      → All (IsAllowed old (some n)) (requests (resume project p n))
  resume-IsAllowed old n =
      resume-All (IsAllowed old (some n)) n
        (λ ours. ((n, inr refl, ours, refl), (n, inr refl, ours, refl)))

  commit-IsAllowed :
      (old new : Option Container) → All (IsAllowed old new) (requests (commit project old))
  unfolding commit
  commit-IsAllowed none new = tt
  commit-IsAllowed (some o) new = elim (Bool-cases (managed project o)) [
    | inr foreign ↦ rw foreign tt
    | inl ours ↦ rw ours ((o, inl refl, ours, refl), tt)
  ]

  roll_back-IsAllowed :
      (old new : Option Container)
      → All (IsAllowed old new) (requests (roll_back project p old new))
  unfolding roll_back
  roll_back-IsAllowed none new = tt
  roll_back-IsAllowed (some o) none = elim (Bool-cases (managed project o)) [
    | inr foreign ↦ rw foreign tt
    | inl ours ↦ rw ours ((o, inl refl, ours, refl), ((o, inl refl, ours, refl), tt))
  ]
  roll_back-IsAllowed (some o) (some n) = elim (Bool-cases (managed project o)) [
    | inr foreign ↦ rw foreign tt
    | inl ours ↦ elim (Bool-cases (managed project n)) [
      | inr foreign ↦ rw (ours, foreign) tt
      | inl theirs ↦
          rw (ours, theirs)
            (
              (n, inr refl, theirs, refl),
              ((o, inl refl, ours, refl), ((o, inl refl, ours, refl), tt)),
            )
    ]
  ]

  plan-IsAllowed :
      (old new : Option Container) → All (IsAllowed old new) (requests (plan project p old new))
  unfolding plan
  plan-IsAllowed old none = roll_back-IsAllowed old none
  plan-IsAllowed old (some n) = elim (Bool-cases (n.ident == p.old)) [
    | inl unchanged ↦ rw unchanged (resume-IsAllowed old n)
    | inr replaced ↦ elim (Bool-cases (managed project n && n.is_healthy)) [
      | inl healthy ↦ rw (replaced, healthy) (commit-IsAllowed old (some n))
      | inr unfit ↦ rw (replaced, unfit) (roll_back-IsAllowed old (some n))
    ]
  ]

perform-All :
    (P : Action → Type 0) (api : Action → Bool) (actions : List Action)
    → All P actions
    → All P (perform api actions).0
unfolding perform
perform-All P api [] h = tt
perform-All P api (action ∷ actions) h = elim (Bool-cases (api action)) [
  | inl fine ↦ rw fine (h.0, perform-All P api actions h.1)
  | inr fails ↦ rw fails (h.0, tt)
]

perform-In :
    (a : Action) (api : Action → Bool) (actions : List Action)
    → In a (perform api actions).0
    → In a actions
unfolding perform
perform-In a api [] i = i
perform-In a api (action ∷ actions) i = elim (Bool-cases (api action)) [
  | inl fine ↦ elim (rw fine at i) [
    | inl same ↦ inl same
    | inr later ↦ inr (perform-In a api actions later)
  ]
  | inr fails ↦ elim (rw fails at i) [ inl same ↦ inl same | inr never ↦ absurd never ]
]

module _ (project : String) (p : Pending) where
  resume-keeps : (n : Container) → In (remove p.old) (requests project p (resume project p n)) → ⊥
  unfolding resume
  resume-keeps n i = absurd (ground (arith, i))

  roll_back-keeps :
      (old : Option Container) (n : Container)
      → (n.ident == p.old) ≡ false
      → In (remove p.old) (requests project p (roll_back project p old (some n)))
      → ⊥
  unfolding roll_back
  roll_back-keeps none n other i = absurd i
  roll_back-keeps (some o) n other i = absurd (ground (arith, i, other, ==_refl p.old))

  plan-replaced :
      (old new : Option Container)
      → In (remove p.old) (requests project p (plan project p old new))
      → (n : Container) × (new ≡ some n) × (managed project n ≡ true) × (n.is_healthy ≡ true)
  unfolding plan roll_back
  plan-replaced none none i = absurd i
  plan-replaced (some o) none i = absurd (ground (arith, i))
  plan-replaced old (some n) i = elim (Bool-cases (n.ident == p.old)) [
    | inl unchanged ↦ absurd (resume-keeps n (rw unchanged at i))
    | inr other ↦ elim (Bool-cases (managed project n && n.is_healthy)) [
      | inl healthy ↦ let (ours, fit) = &&-cases _ _ healthy in (n, refl, ours, fit)
      | inr unfit ↦ absurd (roll_back-keeps old n other (rw (other, unfit) at i))
    ]
  ]

module _ (project : String) (inspect : String → Option Container) (api : Action → Bool) where
  -- A recovery changes no container but the old one and the one under its name, and neither unless
  -- it is one of the project's workers that have opted in.
  pub recover_from-IsAllowed :
      (state : State) (p : Pending)
      → All
          (IsAllowed project p (inspect p.old) (inspect p.name))
          (recover_from project inspect api state p).requests
  unfolding recover_from
  recover_from-IsAllowed state p =
      let allowed = plan-IsAllowed project p (inspect p.old) (inspect p.name) in
      elim (Result-cases (plan project p (inspect p.old) (inspect p.name))) [
        | inr (e, no_plan) ↦ rw (no_plan, recover_from) tt
        | inl ((actions, back), planned) ↦
            rw (planned, recover_from) (perform-All _ api actions (rw planned at allowed))
      ]

  recover_from-settles :
      (state : State) (p : Pending)
      → (((recover_from project inspect api state p).returns ≡ true)
          × ((recover_from project inspect api state p).state.pending ≡ none))
        ⊎ (((recover_from project inspect api state p).returns ≡ false)
            × ((recover_from project inspect api state p).state ≡ state))
  unfolding recover_from
  recover_from-settles state p =
      elim (Result-cases (plan project p (inspect p.old) (inspect p.name))) [
        | inr (e, no_plan) ↦ rw (no_plan, recover_from) (inr (refl, refl))
        | inl ((actions, back), planned) ↦ elim (Bool-cases (perform api actions).1) [
          | inl all ↦ rw (planned, recover_from, all) (inl (refl, refl))
          | inr some_fail ↦ rw (planned, recover_from, some_fail) (inr (refl, refl))
        ]
      ]

  -- The container that was to be replaced is removed only where a healthy and managed one has its
  -- name.
  pub recover_from-replaced :
      (state : State) (p : Pending)
      → In (remove p.old) (recover_from project inspect api state p).requests
      → (n : Container) × (inspect p.name ≡ some n)
        × (managed project n ≡ true)
        × (n.is_healthy ≡ true)
  unfolding recover_from
  recover_from-replaced state p i =
      elim (Result-cases (plan project p (inspect p.old) (inspect p.name))) [
        | inr (e, no_plan) ↦ absurd (rw (no_plan, recover_from) at i)
        | inl ((actions, back), planned) ↦
            let done = perform-In (remove p.old) api actions (rw (planned, recover_from) at i) in
            plan-replaced project p (inspect p.old) (inspect p.name) (rw planned done)
      ]

  -- An image that a recovery has rolled back is not tried again on a worker of that role: an update
  -- to it returns at once and asks nothing of Docker.
  pub update_rolled_back :
      (inspect_again : String → Option Container) (api_again : Action → Bool) (created : String)
      (state : State) (p : Pending) (actions : List Action) (r : Request) (looks : List Look)
      → plan project p (inspect p.old) (inspect p.name) ≡ ok (actions, true)
      → (recover_from project inspect api state p).returns ≡ true
      → r.old.role ≡ p.service
      → r.image ≡ p.image
      → let after = (recover_from project inspect api state p).state in
        update project inspect api inspect_again api_again created after r looks
        ≡ record { state = after; requests = []; returns = true }
  unfolding update failed_image recover_from
  update_rolled_back inspect_again api_again created state p actions r looks planned returned role
        image =
      let failed : (recover_from project inspect api state p).state.failed
          ≡ (p.service, p.image) ∷ state.failed =
        ground (arith, planned, returned) in
      let known : failed_image r.old.role (recover_from project inspect api state p).state.failed
          ≡ some p.image =
        rw (failed, role, ==_refl p.service) refl in
      rw (known, image, ==_refl p.image, update) refl
