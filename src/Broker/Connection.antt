-- ===== src/Broker/Connection.antt =====
-- BrokerConfig.from_file of whisper/broker.py: which connection files it accepts.
use Prim.Native.String.{count}
use transcriber.Prelude.{
  ℕ, ◌≤◌, ◌≡◌, ◌⊎◌, Bool, true, ◌&&◌, ◌||◌, not, String, Option, none, some, ◌==◌, eqb, ltb, inl,
  inr, arith, if◌then◌else◌, ==→≡, Bool-cases,
}
use transcriber.Prelude.Options.{◌>>=◌, bind_some}
use transcriber.WorkerAuth.{all_codes, between, is_worker_id, is_token}
use transcriber.Config
use transcriber.Config.{
  Json, Fields, no_fields, field, object, int, text, flag, lookup, natural, is_space,
}

pub record BrokerConfig : Type 0 where
  pub host : String
  pub port : ℕ
  pub virtual_host : String
  pub username : String
  pub password : String
  pub tls : Bool
  pub ca_file : String
  pub namespace : String

-- The keyword arguments of `cls(**json.loads(raw), ca_file=ca_file)`.
unfoldable pub are_config_keys : Fields → Bool
are_config_keys no_fields = true
are_config_keys (field name value rest) =
    (name == "host"
      || (name == "port"
          || (name == "virtual_host"
              || (name == "username"
                  || (name == "password" || (name == "tls" || name == "namespace"))))))
    && are_config_keys rest

abbrev pub text_field : Option Json → Option String
text_field (some (text value)) = some value
text_field _ = none

abbrev pub port_field : Option Json → Option ℕ
port_field (some (int (natural n))) = some n
port_field _ = none

-- A field with its default.
abbrev pub tls_field : Option Json → Option Bool
tls_field none = some true
tls_field (some (flag value)) = some value
tls_field _ = none

abbrev pub namespace_field : Option Json → Option String
namespace_field none = some "transcriber"
namespace_field (some (text value)) = some value
namespace_field _ = none

-- `not config.host or re.search(r"[\s/@?#]", config.host)`, negated
abbrev pub is_host : String → Bool
is_host host =
    not (host == "")
    && all_codes (λ n. not (is_space n || (eqb n 47 || (eqb n 64 || (eqb n 63 || eqb n 35))))) host

abbrev pub is_name_code : ℕ → Bool
is_name_code n =
    between 65 90 n
    || (between 97 122 n || (between 48 57 n || (eqb n 95 || (eqb n 46 || eqb n 45))))

-- `[A-Za-z0-9_./-]{1,128}` and `[A-Za-z0-9_.-]{1,100}`
abbrev pub is_virtual_host : String → Bool
is_virtual_host name =
    between 1 128 (count name) && all_codes (λ n. is_name_code n || eqb n 47) name

abbrev pub is_namespace : String → Bool
is_namespace name = between 1 100 (count name) && all_codes is_name_code name

-- The fields of the file with the types that the checks ask for.
unfoldable pub read_fields : String → Fields → Option BrokerConfig
unfolding lookup
read_fields ca_file fields = do
  host ← text_field (lookup "host" fields)
  port ← port_field (lookup "port" fields)
  virtual_host ← text_field (lookup "virtual_host" fields)
  username ← text_field (lookup "username" fields)
  password ← text_field (lookup "password" fields)
  tls ← tls_field (lookup "tls" fields)
  namespace ← namespace_field (lookup "namespace" fields)
  some (record {
    host = host;
    port = port;
    virtual_host = virtual_host;
    username = username;
    password = password;
    tls = tls;
    ca_file = ca_file;
    namespace = namespace;
  })

-- The checks on the fields' values.
unfoldable pub is_config : BrokerConfig → Bool
unfolding all_codes
is_config config =
    is_host config.host
    && (between 1 65535 config.port
        && (is_worker_id config.username
            && (is_virtual_host config.virtual_host
                && (is_namespace config.namespace && is_token config.password))))

module _ {Body : Type 0} (size : Body → ℕ) (loads : Body → Option Json)
    (is_loopback : String → Bool) where
  -- The checks after the fields are read; an address that does not parse is not a loopback one.
  unfoldable pub check_config : BrokerConfig → Option BrokerConfig
  unfolding is_config
  check_config config =
      if not (is_config config)
      then none
      else if not config.tls && not (config.host == "localhost" || is_loopback config.host)
      then none
      else some config

  unfoldable pub from_json : String → Option Json → Option BrokerConfig
  unfolding are_config_keys read_fields check_config
  from_json ca_file (some (object fields)) =
      if are_config_keys fields
      then (do config ← read_fields ca_file fields; check_config config)
      else none
  from_json ca_file _ = none

  -- `from_file` on the bytes of the file; `none` is its ValueError
  unfoldable pub from_file : String → Body → Option BrokerConfig
  unfolding from_json
  from_file ca_file raw = if ltb 8192 (size raw) then none else from_json ca_file (loads raw)

  -- The password stays off an unencrypted network, and the values have their forms.
  abbrev pub IsConfined : BrokerConfig → Type 0
  IsConfined config =
      ((config.tls ≡ true) ⊎ (config.host ≡ "localhost") ⊎ (is_loopback config.host ≡ true))
      × (1 ≤ config.port)
      × (config.port ≤ 65535)
      × (is_worker_id config.username ≡ true)
      × (is_token config.password ≡ true)

  check_config-IsConfined :
      (read config : BrokerConfig) → check_config read ≡ some config → IsConfined config
  unfolding check_config is_config
  check_config-IsConfined read config e =
      let same : read ≡ config = ground (arith, e) in
      rw (← same) (
        elim (Bool-cases (read.host == "localhost")) [
          | inl here ↦ inr (inl (==→≡ here))
          | inr elsewhere ↦ ground (arith, elsewhere, e)
        ],
        ground (arith, e),
        ground (arith, e),
        ground (arith, e),
        ground (arith, e),
      )

  from_json-IsConfined :
      (ca_file : String) (value : Option Json) (config : BrokerConfig)
      → from_json ca_file value ≡ some config
      → IsConfined config
  unfolding from_json
  from_json-IsConfined ca_file (some (object fields)) config e =
      elim (Bool-cases (are_config_keys fields)) [
        | inr unknown ↦ absurd (ground (arith, unknown, e))
        | inl known ↦
            let (read, given, checked) =
              bind_some (read_fields ca_file fields) check_config (rw known at e) in
            check_config-IsConfined read config checked
      ]
  from_json-IsConfined ca_file none config e = cc
  from_json-IsConfined ca_file (some Config.other) config e = cc
  from_json-IsConfined ca_file (some (int n)) config e = cc
  from_json-IsConfined ca_file (some (flag b)) config e = cc
  from_json-IsConfined ca_file (some (text t)) config e = cc

  -- A connection file that is accepted keeps the password from an unencrypted network: the
  -- connection uses TLS or the host is this machine; and the port, the user name and the password
  -- have their forms.
  pub from_file-IsConfined :
      (ca_file : String) (raw : Body) (config : BrokerConfig)
      → from_file ca_file raw ≡ some config
      → IsConfined config
  unfolding from_file
  from_file-IsConfined ca_file raw config e = elim (Bool-cases (ltb 8192 (size raw))) [
    | inl large ↦ absurd (ground (arith, large, e))
    | inr small ↦ from_json-IsConfined ca_file (loads raw) config (rw small at e)
  ]
