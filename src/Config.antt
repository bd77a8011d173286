-- ===== src/Config.antt =====
-- crates/agent-core/src/config.rs: the configuration and its profiles. `Profile::privileged_dev` and the
-- struct `Profile` stand at the end of that file's data.
pub mod Laws
use ipa_rs_agent_controller.Common.{Bool, not, Option, none, some, List, [], ◌∷◌, ◌++◌}
use ipa_rs_agent_controller.Common.{
  Result, ok, ◌>>=◌, ◌>>◌, ensure, context, contains, ◌==◌, list_eq, nat_eq, if◌then◌else◌,
}
use ipa_rs_agent_controller.Common.Text.{Text, text}
use ipa_rs_agent_controller.Path.{FilePath, ◌/◌}
use ipa_rs_agent_controller.Model.{Limits, NetworkPolicy, default_limits, default_policy}
use ipa_rs_agent_controller.Model.Limit
use ipa_rs_agent_controller.Model.Limit.{Floats}
use ipa_rs_agent_controller.Model.Policy
use ipa_rs_agent_controller.Storage.Ids.{validate_id}

pub record Profile : Type 0 where
  pub name : Text
  pub limits : Limits
  pub network_policy : NetworkPolicy

unfoldable pub privileged_dev : Profile
privileged_dev = record {
  name = text "privileged-dev";
  limits = default_limits;
  network_policy = default_policy;
}

pub record AgentConfig : Type 0 where
  pub agentfs : FilePath
  pub socket_path : FilePath
  pub tcp_addr : Text
  pub default_profile : Text
  pub profiles : List Profile

-- `AgentConfig::new`
unfoldable pub new_config : FilePath → AgentConfig
new_config agentfs = record {
  agentfs = agentfs;
  socket_path = agentfs / text "runtime/sockets/agent-forkd.sock";
  tcp_addr = text "127.0.0.1:38475";
  default_profile = text "privileged-dev";
  profiles = privileged_dev ∷ [];
}

unfoldable pub find_profile : Text → List Profile → Option Profile
find_profile name [] = none
find_profile name (p ∷ ps) = if p.name == name then some p else find_profile name ps

-- `AgentConfig::profile`
unfoldable pub profile : AgentConfig → Text → Option Profile
unfolding find_profile
profile c name = find_profile name c.profiles

module _ (F : Floats) where
  check_profile : List Text → Profile → Result (Unit {0})
  check_profile names p = do
    context (text "invalid profile " ++ p.name) (validate_id p.name)
    ensure (not (contains names p.name)) (text "duplicate profile " ++ p.name)
    context (text "invalid limits for profile " ++ p.name) (Limit.validate F p.limits)
    context (text "invalid network_policy for profile " ++ p.name)
        (Policy.validate p.network_policy)

  -- The loop over the profiles returns the names that it has seen.
  check_profiles : List Text → List Profile → Result (List Text)
  unfolding check_profile
  check_profiles names [] = ok names
  check_profiles names (p ∷ ps) = do check_profile names p; check_profiles (p.name ∷ names) ps

  unfoldable pub validate : AgentConfig → Result (Unit {0})
  unfolding check_profiles
  validate c = do
    context (text "invalid default_profile " ++ c.default_profile) (validate_id c.default_profile)
    names ← check_profiles [] c.profiles
    ensure (contains names c.default_profile) (
        text "default_profile "
        ++ (c.default_profile ++ text " does not match any configured profile"))
