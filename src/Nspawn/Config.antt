-- ===== src/Nspawn/Config.antt =====
-- The configuration and the command line of a machine: crates/agent-core/src/nspawn.rs.
use ipa_rs_agent_controller.Common.{Option, none, some, List, [], ◌∷◌, ◌++◌}
use ipa_rs_agent_controller.Common.{Result, ok, ◌>>◌, ◌==◌, eqb, if◌then◌else◌}
use ipa_rs_agent_controller.Common.Text.{Text, text, show}
use ipa_rs_agent_controller.Path.{FilePath, display}
use ipa_rs_agent_controller.Model.{Env, btrfs, backend_eq, unit_name}
use ipa_rs_agent_controller.Model.Limit
use ipa_rs_agent_controller.Model.Limit.{
  Floats, is_unlimited, network_uses_bridge, network_is_disabled,
}

abbrev bridge_zone : Text
bridge_zone = text "agent-forkd"

-- The paths that are masked inside a machine.
abbrev pub inaccessible_paths : List Text
inaccessible_paths = text "/agentfs" ∷ []

abbrev pub masked_socket_paths : List Text
masked_socket_paths =
    text "/run/agent-forkd.sock" ∷ text "/run/docker.sock" ∷ text "/var/run/docker.sock" ∷ []

-- `paths.iter().map(|path| format!("{before}{path}{after}")).collect::<String>()`
around : Text → Text → List Text → Text
around before after [] = []
around before after (p ∷ ps) = before ++ (p ++ (after ++ around before after ps))

network_section : Env → Text
network_section env =
    if network_uses_bridge env.limits
    then text "VirtualEthernet=yes\nZone=" ++ (bridge_zone ++ text "\n")
    else if network_is_disabled env.limits
    then text "Private=yes\n"
    else []

unfoldable pub config_text : Env → Text
unfolding around network_section
config_text env =
    text "[Exec]\nBoot=yes\n"
    ++ ((if env.backend == btrfs then text "PrivateUsers=pick\nPrivateUsersOwnership=map\n" else [])
        ++ (text "Hostname="
            ++ (env.machine_name
                ++ (text "\n\n[Files]\nReadOnly=no\nResolvConf=copy-host\n"
                    ++ (around (text "Inaccessible=") (text "\n") inaccessible_paths
                        ++ (around (text "BindReadOnly=/dev/null:") (text "\n") masked_socket_paths
                            ++ (text "\n[Network]\n" ++ network_section env)))))))

unfoldable pub bridge_network_text : Text
bridge_network_text =
    text
      "[Match]\nName=vz-agent-forkd\n\n[Network]\nAddress=10.77.0.1/24\nDHCPServer=yes\nIPMasquerade=ipv4\nIPForward=ipv4\n\n[DHCPServer]\nPoolOffset=100\nPoolSize=100\nEmitDNS=yes\nDNS=1.1.1.1\n"

unfoldable pub systemd_limit_properties : Env → List Text
systemd_limit_properties env =
    (if is_unlimited env.limits.cpu_max
      then []
      else (text "--property=CPUQuota=" ++ env.limits.cpu_max) ∷ [])
    ++ ((if is_unlimited env.limits.memory_max
          then []
          else (text "--property=MemoryMax=" ++ env.limits.memory_max) ∷ [])
        ++ ((if eqb env.limits.pids_max 0
              then []
              else (text "--property=TasksMax=" ++ show env.limits.pids_max) ∷ [])
            ++ (if is_unlimited env.limits.max_runtime
                then []
                else (text "--property=RuntimeMaxSec=" ++ env.limits.max_runtime) ∷ [])))

log_args : Option FilePath → List Text
log_args none = []
log_args (some p) =
    (text "--property=StandardOutput=append:" ++ display p)
    ∷ (text "--property=StandardError=append:" ++ display p)
    ∷ []

-- `paths.iter().map(|path| format!("{flag}{path}"))`
flags : Text → List Text → List Text
flags flag [] = []
flags flag (p ∷ ps) = (flag ++ p) ∷ flags flag ps

private_user_args : Env → List Text
private_user_args env =
    if env.backend == btrfs
    then text "--private-users=pick" ∷ text "--private-users-ownership=map" ∷ []
    else []

network_args : Env → List Text
network_args env =
    if network_uses_bridge env.limits
    then text "--network-veth" ∷ (text "--network-zone=" ++ bridge_zone) ∷ []
    else if network_is_disabled env.limits
    then text "--private-network" ∷ []
    else []

unfoldable pub start_args : Floats → Env → Option FilePath → Result (List Text)
unfolding log_args flags private_user_args network_args
start_args F env log_path = do
  Limit.validate F env.limits
  ok (
      (text "--unit=" ++ unit_name env.id)
      ∷ text "--collect"
      ∷ text "--property=Delegate=yes"
      ∷ (systemd_limit_properties env
          ++ (log_args log_path
              ++ (text "systemd-nspawn"
                  ∷ text "--machine"
                  ∷ env.machine_name
                  ∷ (text "--hostname=" ++ env.machine_name)
                  ∷ text "--directory"
                  ∷ display env.rootfs_path
                  ∷ text "--boot"
                  ∷ text "--resolv-conf=copy-host"
                  ∷ text "--register=yes"
                  ∷ text "--tmpfs=/tmp"
                  ∷ (private_user_args env
                      ++ (flags (text "--inaccessible=") inaccessible_paths
                          ++ (flags (text "--bind-ro=/dev/null:") masked_socket_paths
                              ++ network_args env)))))))
