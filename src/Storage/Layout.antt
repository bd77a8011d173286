-- ===== src/Storage/Layout.antt =====
-- `Layout` of crates/agent-core/src/storage.rs: where each file of the controller lies.
pub mod Laws
use ipa_rs_agent_controller.Common.{◌++◌}
use ipa_rs_agent_controller.Common.Text.{Text, text}
use ipa_rs_agent_controller.Path.{FilePath, ◌/◌}

pub record Layout : Type 0 where
  pub agentfs : FilePath

unfoldable pub bases_dir : Layout → FilePath
bases_dir l = l.agentfs / text "bases"

unfoldable pub envs_dir : Layout → FilePath
envs_dir l = l.agentfs / text "envs"

unfoldable pub cache_dir : Layout → FilePath
cache_dir l = l.agentfs / text "cache"

unfoldable pub runtime_dir : Layout → FilePath
runtime_dir l = l.agentfs / text "runtime"

unfoldable pub socket_dir : Layout → FilePath
unfolding runtime_dir
socket_dir l = runtime_dir l / text "sockets"

unfoldable pub base_dir : Layout → Text → FilePath
unfolding bases_dir
base_dir l id = bases_dir l / id

unfoldable pub base_rootfs : Layout → Text → FilePath
unfolding base_dir
base_rootfs l id = base_dir l id / text "rootfs"

unfoldable pub base_lower : Layout → Text → FilePath
unfolding base_dir
base_lower l id = base_dir l id / text "lower"

unfoldable pub env_dir : Layout → Text → FilePath
unfolding envs_dir
env_dir l id = envs_dir l / id

unfoldable pub env_rootfs : Layout → Text → FilePath
unfolding env_dir
env_rootfs l id = env_dir l id / text "rootfs"

unfoldable pub env_lower : Layout → Text → FilePath
unfolding env_dir
env_lower l id = env_dir l id / text "lower"

unfoldable pub env_upper : Layout → Text → FilePath
unfolding env_dir
env_upper l id = env_dir l id / text "upper"

unfoldable pub env_whiteouts : Layout → Text → FilePath
unfolding env_dir
env_whiteouts l id = env_dir l id / text "whiteouts"

unfoldable pub env_view_root : Layout → Text → FilePath
unfolding env_dir
env_view_root l id = env_dir l id / text "view-root"

unfoldable pub env_logs : Layout → Text → FilePath
unfolding env_dir
env_logs l id = env_dir l id / text "logs"

unfoldable pub daemon_log : Layout → Text → FilePath
unfolding env_logs
daemon_log l id = env_logs l id / text "agent-forkd.log"

unfoldable pub lifecycle_log : Layout → Text → FilePath
unfolding env_logs
lifecycle_log l id = env_logs l id / text "lifecycle.log"

unfoldable pub nspawn_log : Layout → Text → FilePath
unfolding env_logs
nspawn_log l id = env_logs l id / text "nspawn.log"

unfoldable pub session_logs : Layout → Text → FilePath
unfolding env_logs
session_logs l env_id = env_logs l env_id / text "sessions"

unfoldable pub sessions_dir : Layout → Text → FilePath
unfolding env_dir
sessions_dir l env_id = env_dir l env_id / text "sessions"
