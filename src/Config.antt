-- ===== src/Config.antt =====
-- whisper/scheduling.py and the settings that `JobStore.__init__` of whisper/storage.py accepts.
pub mod Bounds
pub mod Limits
mod Tests
use transcriber.Prelude.{
  ℕ, Bool, true, false, ◌&&◌, ◌||◌, not, String, Option, none, some, List, [], ◌∷◌, ◌==◌, leb, eqb,
  length, if◌then◌else◌,
}
use transcriber.Prelude.Results.{Result, ok, err}
use transcriber.Storage.Schema.{Policy, Backend, Settings, postgres, rabbitmq}
use transcriber.Storage.Attempts.{is_empty}
use transcriber.WorkerAuth
use transcriber.WorkerAuth.{all_codes, between}

-- An `int`; `negative n` is -(n + 1).
pub data Integer : Type 0 where
  natural negative : ℕ → Integer

-- What `json.loads` returns, as far as the settings look at it.
mutual
  pub data Json : Type 0 where
    other : Json
    int : Integer → Json
    flag : Bool → Json
    text : String → Json
    object : Fields → Json

  pub data Fields : Type 0 where
    no_fields : Fields
    field : String → Json → Fields → Fields

abbrev pub within : ℕ → ℕ → Integer → Option ℕ
within low high (natural n) = if leb low n && leb n high then some n else none
within low high (negative n) = none

unfoldable pub lookup : String → Fields → Option Json
lookup key no_fields = none
lookup key (field name value rest) = if name == key then some value else lookup key rest

unfoldable pub are_policy_keys : Fields → Bool
are_policy_keys no_fields = true
are_policy_keys (field name value rest) =
    (name == "priority" || name == "max_concurrency") && are_policy_keys rest

abbrev pub bounded_field : ℕ → Option Json → Option ℕ
bounded_field high (some (int n)) = within 0 high n
bounded_field high _ = none

-- The checks of `parse_policies` on one value, and the policy.
unfoldable pub parse_policy : Json → Option Policy
unfolding lookup are_policy_keys
parse_policy (object fields) =
    if are_policy_keys fields
    then elim (bounded_field 10000 (lookup "priority" fields)) [
      | none ↦ none
      | some priority ↦ elim (bounded_field 32 (lookup "max_concurrency" fields)) [
        | none ↦ none
        | some limit ↦ some (record { priority = priority; max_concurrency = limit })
      ]
    ]
    else none
parse_policy _ = none

abbrev pub is_reserved : String → Bool
is_reserved worker_id = worker_id == "ingress" || worker_id == "other"

-- The loop of `parse_policies`.
unfoldable pub parse_fields : Fields → Option (List (String × Policy))
unfolding parse_policy
parse_fields no_fields = some []
parse_fields (field worker_id value rest) =
    let others = parse_fields rest in
    if is_reserved worker_id || not (WorkerAuth.is_worker_id worker_id)
    then none
    else elim (parse_policy value) [
      | none ↦ none
      | some policy ↦ elim others [ none ↦ none | some ps ↦ some ((worker_id, policy) ∷ ps) ]
    ]

-- The characters that `str.strip` takes off.
abbrev pub is_space : ℕ → Bool
is_space n =
    between 9 13 n
    || (between 28 32 n
        || (eqb n 133
            || (eqb n 160
                || (eqb n 5760
                    || (between 8192 8202 n
                        || (between 8232 8233 n || (eqb n 8239 || (eqb n 8287 || eqb n 12288))))))))

-- The checks of `parse_policies` on the document.
unfoldable pub checked_policies : Option Json → Option (List (String × Policy))
unfolding parse_fields
checked_policies (some (object members)) = elim (parse_fields members) [
  | none ↦ none
  | some policies ↦ if between 1 128 (length policies) then some policies else none
]
checked_policies _ = none

module _ (loads : String → Option Json) where
  -- `parse_policies`; none is its ValueError
  unfoldable pub parse_policies : String → Option (List (String × Policy))
  unfolding checked_policies all_codes
  parse_policies value =
      if all_codes is_space value then some [] else checked_policies (loads value)

-- `worker_concurrency` after `int(value)`, which is none where that raises
unfoldable pub worker_concurrency : Option Integer → Option ℕ
worker_concurrency none = none
worker_concurrency (some n) = within 1 16 n

-- The environment of `JobStore`, its numbers read by `int` and PREFERRED_WORKER_IDS split.
pub record Environment : Type 0 where
  pub lease_seconds : Integer
  pub max_attempts : Integer
  pub worker_policies : String
  pub queue_backend : String
  pub demand_ttl_seconds : Integer
  pub preferred_workers : List String
  pub availability_ttl_seconds : Integer
  pub storage_root : String

abbrev pub at_least : ℕ → Integer → Option ℕ
at_least low (natural n) = if leb low n then some n else none
at_least low (negative n) = none

abbrev pub backend : String → Option Backend
backend name =
    if name == "postgres" then some postgres else if name == "rabbitmq" then some rabbitmq else none

unfoldable pub are_worker_ids : List String → Bool
are_worker_ids [] = true
are_worker_ids (x ∷ xs) = WorkerAuth.is_worker_id x && are_worker_ids xs

-- RabbitMQ requires explicit policies.
abbrev pub fits_backend : Backend → List (String × Policy) → Bool
fits_backend postgres policies = true
fits_backend rabbitmq policies = not (is_empty policies)

module _ (loads : String → Option Json) where
  -- `JobStore.__init__`; none is its ValueError
  unfoldable pub configure : Environment → Option Settings
  unfolding parse_policies are_worker_ids
  configure env = elim (parse_policies loads env.worker_policies) [
    | none ↦ none
    | some policies ↦ elim (backend env.queue_backend) [
      | none ↦ none
      | some b ↦ elim (within 5 60 env.demand_ttl_seconds) [
        | none ↦ none
        | some demand ↦ elim (within 30 600 env.availability_ttl_seconds) [
          | none ↦ none
          | some availability ↦ elim (at_least 3 env.lease_seconds) [
            | none ↦ none
            | some lease ↦ elim (at_least 1 env.max_attempts) [
              | none ↦ none
              | some attempts ↦
                  if fits_backend b policies && are_worker_ids env.preferred_workers
                  then some (record {
                    lease_seconds = lease;
                    max_attempts = attempts;
                    worker_policies = policies;
                    queue_backend = b;
                    demand_ttl_seconds = demand;
                    preferred_workers = env.preferred_workers;
                    availability_ttl_seconds = availability;
                    storage_root = env.storage_root;
                  })
                  else none
            ]
          ]
        ]
      ]
    ]
  ]
