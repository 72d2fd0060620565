-- ===== src/Config/Tests.antt =====
-- One environment in RabbitMQ mode.
use transcriber.Prelude.{◌≤◌, ◌≡◌, refl, String, Option, none, some, List, [], ◌∷◌, length, All}
use transcriber.Storage.Schema.{Policy, Settings, rabbitmq}
use transcriber.WorkerAuth
use transcriber.Config
use transcriber.Config.{Json, Environment, object, field, no_fields, int, natural}
use transcriber.Admission.{UploadLimits}
use transcriber.Config.Limits
use transcriber.Config.Limits.{from_env}
use transcriber.Config.Bounds.{IsAdmissible, parse_policies-IsAdmissible}

abbrev loads : String → Option Json
loads text = some (
    object (
      field "gpu-1"
        (object (
          field "priority" (int (natural 10))
            (field "max_concurrency" (int (natural 2)) no_fields)))
        no_fields))

abbrev policies : List (String × Policy)
policies = ("gpu-1", record { priority = 10; max_concurrency = 2 }) ∷ []

policies_accepted : Config.parse_policies loads "{...}" ≡ some policies
unfolding Config.parse_policies Config.checked_policies Config.parse_fields Config.parse_policy
    Config.lookup Config.are_policy_keys WorkerAuth.is_worker_id WorkerAuth.all_codes
policies_accepted = refl

parse_policies-IsAdmissible_example : All IsAdmissible policies × (length policies ≤ 128)
parse_policies-IsAdmissible_example =
    parse_policies-IsAdmissible loads "{...}" policies policies_accepted

abbrev environment : Environment
environment = record {
  lease_seconds = natural 900;
  max_attempts = natural 3;
  worker_policies = "{...}";
  queue_backend = "rabbitmq";
  demand_ttl_seconds = natural 10;
  preferred_workers = [];
  availability_ttl_seconds = natural 90;
  storage_root = "/data/jobs";
}

abbrev settings : Settings
settings = record {
  lease_seconds = 900;
  max_attempts = 3;
  worker_policies = policies;
  queue_backend = rabbitmq;
  demand_ttl_seconds = 10;
  preferred_workers = [];
  availability_ttl_seconds = 90;
  storage_root = "/data/jobs";
}

environment_accepted : Config.configure loads environment ≡ some settings
unfolding Config.configure Config.are_worker_ids Config.parse_policies Config.checked_policies
    Config.parse_fields Config.parse_policy Config.lookup Config.are_policy_keys
    WorkerAuth.is_worker_id WorkerAuth.all_codes
environment_accepted = refl

abbrev limits : UploadLimits
limits = record {
  audio_bytes = 1000;
  storage_bytes = 8589934592;
  min_free_bytes = 1073741824;
  concurrent_uploads = 4;
}

limits_accepted : from_env (some (some (natural 1000))) none none none ≡ some limits
unfolding Limits.from_env Limits.audio_limit Limits.positive_limit
limits_accepted = refl
