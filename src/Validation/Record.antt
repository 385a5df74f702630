-- ===== src/Validation/Record.antt =====
-- packages/worker-manager/src/types.ts: the options as they are passed, each of which can be
-- missing. A number's place can hold any value (`Num.not_a_number`), and `null` counts as such;
-- `null` for `env` is like leaving it out.
use Prim.Native.String.{String}
use clusterkit.Common.{Option, List}
use clusterkit.EnvVars.{EnvVars}
use clusterkit.Config.{Count, RestartConfig, HealthConfig, ResolvedConfig}
use clusterkit.Validation.Numbers.{Num}

pub data EnvOption : Type 0 where
  no_env not_an_object : EnvOption
  env_object : EnvVars → EnvOption

-- `none` for an element that is not a string.
pub data ArgvOption : Type 0 where
  no_argv not_an_array : ArgvOption
  argv_array : List (Option String) → ArgvOption

pub data PrefixOption : Type 0 where
  no_prefix not_a_string : PrefixOption
  prefix_string : String → PrefixOption

pub record WorkersOptions : Type 0 where
  pub count : Option (Count Num)
  pub env : EnvOption
  pub exec_argv : ArgvOption
  pub max_age_ms : Option Num
  pub max_rss_mb : Option Num

pub record ShutdownOptions : Type 0 where
  pub timeout_ms : Option Num
  pub ack_timeout_ms : Option Num
  pub message_prefix : PrefixOption
  pub sigterm_delay_ms : Option Num
  pub sigint_delay_ms : Option Num

pub data Section (A : Type 0) : Type 0 where
  missing not_plain : Section A
  given : A → Section A

pub record OrchestratorConfig : Type 0 where
  pub keys : List String
  pub workers : Section WorkersOptions
  pub restart : Section (RestartConfig (Option Num))
  pub shutdown : Section ShutdownOptions
  pub health : Section (HealthConfig (Option Num))

-- What `validateConfig` does: throw for a field, or return.
pub data Validated : Type 0 where
  invalid : String → Validated
  valid : ResolvedConfig Num → Validated
