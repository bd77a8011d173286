-- ===== src/Service/Rootfs.antt =====
-- The root file systems: overlay mounts, and what a child needs inside its root. crates/agent-core/src/service.rs.
use Prim.Native.Nat.{◌/◌ as ◌÷◌, ◌%◌}
use ipa_rs_agent_controller.Common.{
  ℕ, Bool, false, not, ◌||◌, Option, none, some, List, [], ◌∷◌, ◌++◌,
}
use ipa_rs_agent_controller.Common.{
  is_ok, ok_or, ensure, ◌==◌, list_eq, nat_eq, eqb, contains, if◌then◌else◌,
}
use ipa_rs_agent_controller.Common.Text.{
  Text, text, show, join_with, strip_prefix, split_whitespace, is_empty,
}
use ipa_rs_agent_controller.Path.{FilePath, ◌/◌, parent, display}
use ipa_rs_agent_controller.Host.{
  Host, done, not_found, failed, is_success, create_dir_all, create_new, make_symlink,
  set_permissions,
}
use ipa_rs_agent_controller.Host.Effect.{
  M, pure, lift, ◌>>=◌, ◌>>◌, asks, read, exists, perform, for_each, attempt,
}
use ipa_rs_agent_controller.Model.{overlay, backend_eq, Env}
use ipa_rs_agent_controller.Model.Limit.{network_uses_bridge}
use ipa_rs_agent_controller.Storage.Layout.{env_dir, env_rootfs}
use ipa_rs_agent_controller.Storage.Files.{write_text_file}
use ipa_rs_agent_controller.Storage.Records.{read_base}
use ipa_rs_agent_controller.Command.{run, run_checked}
use ipa_rs_agent_controller.Nspawn.Config.{inaccessible_paths}
use ipa_rs_agent_controller.Service.Lifecycle.{child_ipv4_octet}
use ipa_rs_agent_controller.Service.Logs.{Service, layout, remove_path_if_exists}

unfoldable pub overlay_upper_dir : Service → Text → FilePath
overlay_upper_dir s id = env_dir (layout s) id / text "upper"

unfoldable pub overlay_work_dir : Service → Text → FilePath
overlay_work_dir s id = env_dir (layout s) id / text "work"

-- `mode & 0o111 != 0`: one of the bits 1, 8 and 64 is set.
unfoldable pub is_executable_mode : ℕ → Bool
is_executable_mode mode =
    not (eqb (mode % 2) 0) || not (eqb (mode ÷ 8 % 2) 0) || not (eqb (mode ÷ 64 % 2) 0)

abbrev required_tools : List (Text × List Text)
required_tools =
    (text "bash", text "bin/bash" ∷ [])
    ∷ (text "sudo", text "usr/bin/sudo" ∷ text "bin/sudo" ∷ [])
    ∷ (text "tmux", text "usr/bin/tmux" ∷ text "bin/tmux" ∷ [])
    ∷ (text "tee", text "usr/bin/tee" ∷ text "bin/tee" ∷ [])
    ∷ (text "apt", text "usr/bin/apt" ∷ text "usr/bin/apt-get" ∷ [])
    ∷ []

unfoldable pub rootfs_executable_exists : (H : Host) → H.State → FilePath → Bool
unfolding is_executable_mode
rootfs_executable_exists H s p = elim (H.metadata s p) [
  | done m ↦ is_executable_mode m.mode
  | not_found ↦ false
  | failed e ↦ false
]

any_executable : (H : Host) → H.State → FilePath → List Text → Bool
any_executable H s rootfs [] = false
any_executable H s rootfs (candidate ∷ candidates) =
    rootfs_executable_exists H s (rootfs / candidate) || any_executable H s rootfs candidates

missing_tools : (H : Host) → H.State → FilePath → List (Text × List Text) → List Text
missing_tools H s rootfs [] = []
missing_tools H s rootfs ((name, candidates) ∷ tools) =
    let rest = missing_tools H s rootfs tools in
    if any_executable H s rootfs candidates then rest else name ∷ rest

first_word : List Text → Text
first_word [] = text "-"
first_word (w ∷ ws) = w

module _ {H : Host} where
  unfoldable pub validate_child_rootfs_requirements : FilePath → M H (Unit {0})
  unfolding missing_tools any_executable rootfs_executable_exists
  validate_child_rootfs_requirements rootfs = do
    missing ← asks (λ s. missing_tools H s rootfs required_tools)
    lift (
        ensure (is_empty missing) (
          text "child rootfs "
          ++ (display rootfs
              ++ (text " is missing required tool(s): " ++ join_with (text ", ") missing))))

  unfoldable pub make_parent : Option FilePath → M H (Unit {0})
  make_parent none = pure tt
  make_parent (some dir) = perform (create_dir_all dir)

  unfoldable pub mask_target : FilePath → Text → M H (Unit {0})
  unfolding make_parent
  mask_target rootfs p = do
    relative ← lift (
        ok_or (text "inaccessible path " ++ (p ++ text " must be absolute"))
          (strip_prefix p (text "/")))
    present ← exists (rootfs / relative)
    (if present
        then pure tt
        else if p == text "/agentfs"
        then perform (create_dir_all (rootfs / relative))
        else (do
          make_parent (parent (rootfs / relative))
          perform (create_new (rootfs / relative))))

  unfoldable pub ensure_inaccessible_mask_targets : FilePath → M H (Unit {0})
  unfolding mask_target
  ensure_inaccessible_mask_targets rootfs = for_each inaccessible_paths (mask_target rootfs)

  unfoldable pub ensure_child_hostname : FilePath → Text → M H (Unit {0})
  ensure_child_hostname rootfs hostname =
      write_text_file (rootfs / text "etc/hostname") (hostname ++ text "\n")

  unfoldable pub enable_child_systemd_unit : FilePath → Text → M H (Unit {0})
  enable_child_systemd_unit rootfs unit =
      let wants = rootfs / text "etc/systemd/system/multi-user.target.wants" in
      do
        perform (create_dir_all wants)
        present ← attempt (read (λ s. H.symlink_metadata s (wants / unit)))
        (if is_ok present
            then pure tt
            else perform (make_symlink (text "/usr/lib/systemd/system/" ++ unit) (wants / unit)))

  unfoldable pub ensure_child_network_config : Env → M H (Unit {0})
  ensure_child_network_config env = if not (network_uses_bridge env.limits) then pure tt else (do
    write_text_file (env.rootfs_path / text "etc/systemd/network/80-agent-forkd-host0.network") (
        text "[Match]\nName=host0\n\n[Network]\nAddress=10.77.0."
        ++ (show (child_ipv4_octet env.id)
            ++ text "/24\nGateway=10.77.0.1\nDNS=1.1.1.1\nDNS=8.8.8.8\nIPv6AcceptRA=no\n"))
    enable_child_systemd_unit env.rootfs_path (text "systemd-networkd.service")
    enable_child_systemd_unit env.rootfs_path (text "systemd-resolved.service"))

  unfoldable pub ensure_overlay_dirs : Service → Text → M H (Unit {0})
  ensure_overlay_dirs s id =
      for_each (overlay_upper_dir s id ∷ overlay_work_dir s id ∷ env_rootfs (layout s) id ∷ [])
        (λ dir. perform (create_dir_all dir))

  unfoldable pub is_mountpoint : FilePath → M H Bool
  is_mountpoint path = do
    output ← run (text "findmnt") (text "-n" ∷ text "--mountpoint" ∷ display path ∷ [])
    pure (is_success output.status)

  unfoldable pub ensure_env_rootfs_mounted : Service → Env → M H (Unit {0})
  ensure_env_rootfs_mounted s env = if not (env.backend == overlay) then pure tt else (do
    ensure_overlay_dirs s env.id
    mounted ← is_mountpoint env.rootfs_path
    (if mounted then pure tt else (do
      base ← read_base (layout s) env.base_id
      run_checked (text "mount") (
          text "-t"
          ∷ text "overlay"
          ∷ text "overlay"
          ∷ text "-o"
          ∷ (text "lowerdir="
              ++ (display base.rootfs_path
                  ++ (text ",upperdir="
                      ++ (display (overlay_upper_dir s env.id)
                          ++ (text ",workdir=" ++ display (overlay_work_dir s env.id))))))
          ∷ display env.rootfs_path
          ∷ [])
      pure tt)))

  unfoldable pub umount_overlay_rootfs : Env → M H (Unit {0})
  umount_overlay_rootfs env = if not (env.backend == overlay) then pure tt else (do
    mounted ← is_mountpoint env.rootfs_path
    (if mounted
        then (do run_checked (text "umount") (display env.rootfs_path ∷ []); pure tt)
        else pure tt))

  unfoldable pub clean_runtime_path : FilePath → Text → M H (Unit {0})
  clean_runtime_path rootfs rel = do
    remove_path_if_exists (rootfs / rel)
    (if contains (text "proc" ∷ text "sys" ∷ text "dev" ∷ text "run" ∷ text "tmp" ∷ []) rel
        then (do
          perform (create_dir_all (rootfs / rel))
          (if rel == text "tmp" then perform (set_permissions (rootfs / rel) 0o1777) else pure tt))
        else pure tt)

  unfoldable pub clean_runtime_paths : FilePath → M H (Unit {0})
  unfolding clean_runtime_path
  clean_runtime_paths rootfs = do
    for_each (text "proc" ∷ text "sys" ∷ text "dev" ∷ text "run" ∷ text "tmp" ∷ text "agentfs" ∷ [])
        (clean_runtime_path rootfs)
    perform (create_dir_all (rootfs / text "agentfs"))

  unfoldable pub disk_used : FilePath → M H Text
  unfolding first_word
  disk_used path = do
    output ← run_checked (text "du") (text "-sh" ∷ display path ∷ [])
    pure (first_word (split_whitespace output.stdout))

  unfoldable pub env_disk_used : Service → Env → M H Text
  env_disk_used s env =
      disk_used (if env.backend == overlay then overlay_upper_dir s env.id else env.rootfs_path)
