-- ===== src/Config/Bounds.antt =====
-- What settings come out of the environment.
use transcriber.Prelude.{
  ◌≤◌, ◌≡◌, true, false, ◌&&◌, not, String, Option, none, some, List, [], ◌∷◌, length, All, arith,
  Option-cases, Bool-cases, inl, inr,
}
use transcriber.Storage.Schema.{Policy, Settings}
use transcriber.WorkerAuth
use transcriber.WorkerAuth.{all_codes}
use transcriber.Config
use transcriber.Config.{
  Json, Fields, Environment, object, field, no_fields, int, other, natural, negative, is_reserved,
  is_space,
}

-- An entry whose worker may register and whose numbers are in range.
pub record IsAdmissible (entry : String × Policy) : Type 0 where
  pub worker : WorkerAuth.is_worker_id entry.0 ≡ true
  pub unreserved : is_reserved entry.0 ≡ false
  pub priority : entry.1.priority ≤ 10000
  pub limit : entry.1.max_concurrency ≤ 32

parse_policy-bounds :
    (value : Json) (policy : Policy)
    → Config.parse_policy value ≡ some policy
    → (policy.priority ≤ 10000) × (policy.max_concurrency ≤ 32)
unfolding Config.parse_policy
parse_policy-bounds value policy e = ground arith

parse_fields-IsAdmissible :
    (fields : Fields) (policies : List (String × Policy))
    → Config.parse_fields fields ≡ some policies
    → All IsAdmissible policies
unfolding Config.parse_fields
parse_fields-IsAdmissible no_fields policies e = let same : [] ≡ policies = cc in rw (← same) tt
parse_fields-IsAdmissible (field worker_id value rest) policies e =
    elim (Option-cases (Config.parse_fields rest)) [
      | inl malformed ↦ ground (arith, malformed, e)
      | inr (others, parsed) ↦ elim (Option-cases (Config.parse_policy value)) [
        | inl malformed ↦ ground (arith, malformed, e)
        | inr (policy, shown) ↦
            let guard : (not (is_reserved worker_id) && WorkerAuth.is_worker_id worker_id) ≡ true =
              ground (arith, e) in
            let same : (worker_id, policy) ∷ others ≡ policies = ground (arith, e, parsed, shown) in
            let (small, few) = parse_policy-bounds value policy shown in
            rw (← same) (
              record {
                worker = ground (arith, guard);
                unreserved = ground (arith, guard);
                priority = small;
                limit = few;
              },
              parse_fields-IsAdmissible rest others parsed,
            )
      ]
    ]

checked-IsAdmissible :
    (document : Option Json) (policies : List (String × Policy))
    → Config.checked_policies document ≡ some policies
    → All IsAdmissible policies × (length policies ≤ 128)
unfolding Config.checked_policies
checked-IsAdmissible none policies e = cc
checked-IsAdmissible (some other) policies e = cc
checked-IsAdmissible (some (int n)) policies e = cc
checked-IsAdmissible (some (Config.flag b)) policies e = cc
checked-IsAdmissible (some (Config.text t)) policies e = cc
checked-IsAdmissible (some (object members)) policies e =
    elim (Option-cases (Config.parse_fields members)) [
      | inl malformed ↦ ground (arith, malformed, e)
      | inr (parsed, shown) ↦
          let same : parsed ≡ policies = ground (arith, e, shown) in
          let few : length parsed ≤ 128 = ground (arith, e, shown) in
          rw (← same) (parse_fields-IsAdmissible members parsed shown, few)
    ]

module _ (loads : String → Option Json) where
  -- The policies that parse_policies accepts: at most 128, each for a worker ID that is well-formed and
  -- not reserved, with a priority of at most 10000 and a concurrency of at most 32.
  pub parse_policies-IsAdmissible :
      (value : String) (policies : List (String × Policy))
      → Config.parse_policies loads value ≡ some policies
      → All IsAdmissible policies × (length policies ≤ 128)
  unfolding Config.parse_policies
  parse_policies-IsAdmissible value policies e = elim (Bool-cases (all_codes is_space value)) [
    | inl blank ↦
        let same : [] ≡ policies = cc (rw (blank, Config.parse_policies) at e) in
        rw (← same) (tt, omega arith)
    | inr text ↦ checked-IsAdmissible (loads value) policies (rw (text, Config.parse_policies) at e)
  ]

  -- Settings that JobStore starts with have at least one policy in RabbitMQ mode, a lease of at least
  -- three seconds, at least one attempt, availability for 30 to 600 seconds and demand for 5 to 60.
  configure-bounds :
      (env : Environment) (settings : Settings)
      → Config.configure loads env ≡ some settings
      → (Config.fits_backend settings.queue_backend settings.worker_policies ≡ true)
        × (3 ≤ settings.lease_seconds)
        × (1 ≤ settings.max_attempts)
        × (5 ≤ settings.demand_ttl_seconds)
        × (settings.demand_ttl_seconds ≤ 60)
        × (30 ≤ settings.availability_ttl_seconds)
        × (settings.availability_ttl_seconds ≤ 600)
        × (Config.parse_policies loads env.worker_policies ≡ some settings.worker_policies)
  unfolding Config.configure
  configure-bounds env settings e = ground arith
