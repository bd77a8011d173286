-- ===== src/Model.antt =====
-- The data of crates/agent-core/src/model.rs: bases, environments, sessions and their settings.
-- A `PathBuf` is a `FilePath`; a `DateTime<Utc>` counts nanoseconds from a fixed start.
pub mod Limit
pub mod Policy
use ipa_rs_agent_controller.Common.{ℕ, ◌++◌, Bool, true, false, Option, none, List, []}
use ipa_rs_agent_controller.Common.{Eq}
use ipa_rs_agent_controller.Common.Text.{Text, text}
use ipa_rs_agent_controller.Path.{FilePath}

pub data RootfsBackend : Type 0 where
  btrfs overlay path_preserving_overlay apfs_clone : RootfsBackend
  windows_block_clone windows_minifilter_overlay : RootfsBackend

backend_dec : Discrete RootfsBackend
backend_dec = hlevel

instance unfoldable pub backend_eq : Eq RootfsBackend
unfolding backend_dec
backend_eq = record { dec = backend_dec }

unfoldable pub is_path_preserving_overlay : RootfsBackend → Bool
is_path_preserving_overlay path_preserving_overlay = true
is_path_preserving_overlay windows_minifilter_overlay = true
is_path_preserving_overlay _ = false

unfoldable pub is_desktop_native : RootfsBackend → Bool
is_desktop_native path_preserving_overlay = true
is_desktop_native apfs_clone = true
is_desktop_native windows_block_clone = true
is_desktop_native windows_minifilter_overlay = true
is_desktop_native _ = false

pub data EnvState : Type 0 where
  created running stopped failed quota_exceeded : EnvState

env_state_dec : Discrete EnvState
env_state_dec = hlevel

instance unfoldable pub env_state_eq : Eq EnvState
unfolding env_state_dec
env_state_eq = record { dec = env_state_dec }

-- `{:?}` of an `EnvState`
unfoldable pub debug_state : EnvState → Text
debug_state created = text "Created"
debug_state running = text "Running"
debug_state stopped = text "Stopped"
debug_state failed = text "Failed"
debug_state quota_exceeded = text "QuotaExceeded"

pub record Limits : Type 0 where
  pub cpu_max : Text
  pub memory_max : Text
  pub pids_max : ℕ  -- u32
  pub disk_max : Text
  pub network : Text
  pub idle_timeout : Text
  pub max_runtime : Text

unfoldable pub default_limits : Limits
default_limits = record {
  cpu_max = text "400%";
  memory_max = text "16G";
  pids_max = 4096;
  disk_max = text "100G";
  network = text "host";
  idle_timeout = text "0";
  max_runtime = text "0";
}

pub record LimitOverrides : Type 0 where
  pub cpu_max : Option Text
  pub memory_max : Option Text
  pub pids_max : Option ℕ
  pub disk_max : Option Text
  pub network : Option Text
  pub idle_timeout : Option Text
  pub max_runtime : Option Text

pub record NetworkPolicy : Type 0 where
  pub egress_proxy : Option Text
  pub allowlist : List Text

-- `NetworkPolicy::default()`, derived
abbrev pub default_policy : NetworkPolicy
default_policy = record { egress_proxy = none; allowlist = [] }

pub record Base : Type 0 where
  pub id : Text
  pub backend : RootfsBackend
  pub rootfs_path : FilePath
  pub readonly : Bool
  pub created_at : ℕ
  pub source : Text
  pub dpkg_manifest : FilePath

pub record Env : Type 0 where
  pub id : Text
  pub base_id : Text
  pub backend : RootfsBackend
  pub rootfs_path : FilePath
  pub machine_name : Text
  pub state : EnvState
  pub profile : Text
  pub created_at : ℕ
  pub last_active_at : ℕ
  pub limits : Limits
  pub network_policy : NetworkPolicy
  pub sessions : List Text

pub data SessionState : Type 0 where
  running stopped failed : SessionState

session_state_dec : Discrete SessionState
session_state_dec = hlevel

instance unfoldable pub session_state_eq : Eq SessionState
unfolding session_state_dec
session_state_eq = record { dec = session_state_dec }

pub data SessionType : Type 0 where
  pty : SessionType

pub record Session : Type 0 where
  pub id : Text
  pub env_id : Text
  pub command : Text
  pub state : SessionState
  pub created_at : ℕ
  pub session_type : SessionType
  pub log_path : FilePath

pub record EnvStatus : Type 0 where
  pub env : Env
  pub disk_used : Option Text

unfoldable pub machine_name : Text → Text
machine_name env_id = text "af-" ++ env_id

unfoldable pub unit_name : Text → Text
unit_name env_id = text "agent-forkd-" ++ (env_id ++ text ".service")
