-- ===== src/OverlayFs/Mount.antt =====
-- The checks of crates/agent-overlayfs/src/main.rs before a file system is mounted.
pub mod Layout
pub mod Reading
use ipa_rs_agent_controller.Common.{
  Bool, true, false, not, ◌&&◌, Option, none, some, List, [], ◌∷◌, ◌++◌,
}
use ipa_rs_agent_controller.Common.{
  Result, ok, err, ok_or, ◌==◌, list_eq, nat_eq, option_eq, contains, if◌then◌else◌,
}
use ipa_rs_agent_controller.Common.Text.{Text, text}
use ipa_rs_agent_controller.Path.{
  FilePath, Component, root_dir, cur_dir, parent_dir, normal, component_eq, is_absolute, file_name,
  parent, display,
}
use ipa_rs_agent_controller.Host.{
  Host, Io, done, not_found, failed, Metadata, FileType, symlink, directory, filetype_eq,
  create_dir_all,
}
use ipa_rs_agent_controller.Host.Effect.{M, pure, bail, lift, ◌>>=◌, ◌>>◌, asks, perform}
use ipa_rs_agent_controller.Reflink.{is_dir}

pub record MountArgs : Type 0 where
  pub mount_point : FilePath
  pub visible_root : Option FilePath
  pub lower : FilePath
  pub upper : FilePath
  pub whiteouts : FilePath
  pub fallback_roots : List FilePath
  pub fs_name : Text

abbrev pub fallback_root_allowlist : List Text
fallback_root_allowlist =
    text "/bin"
    ∷ text "/sbin"
    ∷ text "/usr/bin"
    ∷ text "/usr/lib"
    ∷ text "/usr/share"
    ∷ text "/System"
    ∷ text "/Library/Filesystems"
    ∷ text "/dev/null"
    ∷ text "/dev/random"
    ∷ text "/dev/tty"
    ∷ text "/dev/urandom"
    ∷ text "/dev/zero"
    ∷ text "/etc/hosts"
    ∷ text "/etc/protocols"
    ∷ text "/etc/resolv.conf"
    ∷ text "/etc/services"
    ∷ text "/etc/shells"
    ∷ text "/etc/zprofile"
    ∷ text "/etc/zshenv"
    ∷ text "/etc/zshrc"
    ∷ text "/var/tmp"
    ∷ text "/tmp"
    ∷ text "/private/etc/hosts"
    ∷ text "/private/etc/protocols"
    ∷ text "/private/etc/resolv.conf"
    ∷ text "/private/etc/services"
    ∷ text "/private/etc/shells"
    ∷ text "/private/etc/zprofile"
    ∷ text "/private/etc/zshenv"
    ∷ text "/private/etc/zshrc"
    ∷ text "/private/tmp"
    ∷ text "/private/var/tmp"
    ∷ []

unfoldable pub allowed_fallback_root : FilePath → Bool
allowed_fallback_root path = contains fallback_root_allowlist (display path)

abbrev dots_message : Text → FilePath → Text
dots_message name path = name ++ (text " must not contain . or .. components: " ++ display path)

dot_free : Text → FilePath → FilePath → Result (Unit {0})
dot_free name path [] = ok tt
dot_free name path (cur_dir ∷ rest) = err (dots_message name path)
dot_free name path (parent_dir ∷ rest) = err (dots_message name path)
dot_free name path (root_dir ∷ rest) = dot_free name path rest
dot_free name path (normal s ∷ rest) = dot_free name path rest

unfoldable pub reject_dot_components : Text → FilePath → Result (Unit {0})
unfolding dot_free
reject_dot_components name path = dot_free name path path

unfoldable pub is_symlink : Io Metadata → Bool
is_symlink (done m) = m.file_type == symlink
is_symlink not_found = false
is_symlink (failed e) = false

module _ {H : Host} where
  -- The components walked so far, and those to come.
  symlink_free : Text → FilePath → FilePath → M H (Unit {0})
  unfolding is_symlink
  symlink_free name current [] = pure tt
  symlink_free name current (c ∷ rest) = do
    linked ← asks (λ s. is_symlink (H.symlink_metadata s (current ++ (c ∷ []))))
    let deeper = symlink_free name (current ++ (c ∷ [])) rest
    if linked
        then bail (
            name
            ++ (text " must not pass through symlink component " ++ display (current ++ (c ∷ []))))
        else deeper

  unfoldable pub reject_existing_symlink_components : Text → FilePath → M H (Unit {0})
  unfolding symlink_free
  reject_existing_symlink_components name path = symlink_free name [] path

  -- The three checks of one path.
  unfoldable pub check_location : Text → FilePath → M H (Unit {0})
  check_location name path = do
    (if is_absolute path
        then pure tt
        else bail (name ++ (text " must be absolute: " ++ display path)))
    lift (reject_dot_components name path)
    reject_existing_symlink_components name path

  check_visible_root : Option FilePath → M H (Unit {0})
  check_visible_root none = pure tt
  check_visible_root (some visible_root) = check_location (text "visible-root") visible_root

  unfoldable pub check_sibling : Text → FilePath → FilePath → M H (Unit {0})
  check_sibling name path env_dir = do
    (if parent path == some env_dir
        then pure tt
        else bail (
            name
            ++ (text " must be a sibling inside "
                ++ (display env_dir ++ (text ", got " ++ display path)))))
    (if file_name path == some name
        then pure tt
        else bail (name ++ (text " must be named " ++ (name ++ (text ", got " ++ display path)))))

  unfoldable pub check_mount_point : FilePath → FilePath → M H (Unit {0})
  check_mount_point env_dir mount_point = do
    (if parent mount_point == some env_dir
        then pure tt
        else bail (
            text "mount-point must be a sibling inside "
            ++ (display env_dir ++ (text ", got " ++ display mount_point))))
    (if file_name mount_point == some (text "view-root")
        then pure tt
        else bail (text "mount-point must be named view-root, got " ++ display mount_point))

  place_of : FilePath → FilePath → Option FilePath → M H (Unit {0})
  place_of env_dir mount_point none = check_mount_point env_dir mount_point
  place_of env_dir mount_point (some visible_root) =
      if visible_root == mount_point
      then pure tt
      else bail (
          text "mount-point must be env view-root or match visible-root for host path mounts: "
          ++ (display mount_point ++ (text " != " ++ display visible_root)))

  -- The first part of the checks: each path by itself.
  unfoldable pub check_locations :
      FilePath → Option FilePath → FilePath → FilePath → FilePath → M H (Unit {0})
  unfolding check_visible_root
  check_locations mount_point visible_root lower upper whiteouts = do
    check_location (text "mount-point") mount_point
    check_location (text "lower") lower
    check_location (text "upper") upper
    check_location (text "whiteouts") whiteouts
    check_visible_root visible_root

  -- The second part: where the paths stand in the directory of the environment.
  unfoldable pub check_env_dir :
      FilePath → FilePath → Option FilePath → FilePath → FilePath → FilePath → M H (Unit {0})
  unfolding place_of
  check_env_dir env_dir mount_point visible_root lower upper whiteouts = do
    check_sibling (text "lower") lower env_dir
    check_sibling (text "upper") upper env_dir
    check_sibling (text "whiteouts") whiteouts env_dir
    (if (parent mount_point == some env_dir) && (file_name mount_point == some (text "view-root"))
        then pure tt
        else place_of env_dir mount_point visible_root)

  unfoldable pub check_places :
      FilePath → Option FilePath → FilePath → FilePath → FilePath → M H (Unit {0})
  unfolding check_env_dir
  check_places mount_point visible_root lower upper whiteouts = do
    env_dir ← lift (ok_or (text "lower must be inside an env directory") (parent lower))
    envs_dir ← lift (ok_or (text "mount-point env directory must be inside envs") (parent env_dir))
    (if file_name envs_dir == some (text "envs")
        then pure tt
        else bail
            (text "mount-point must be under an agentfs envs directory: " ++ display mount_point))
    check_env_dir env_dir mount_point visible_root lower upper whiteouts

  unfoldable pub validate_mount_layout :
      FilePath → Option FilePath → FilePath → FilePath → FilePath → M H (Unit {0})
  unfolding check_locations check_places
  validate_mount_layout mount_point visible_root lower upper whiteouts = do
    check_locations mount_point visible_root lower upper whiteouts
    check_places mount_point visible_root lower upper whiteouts

  unfoldable pub validate_fallback_roots : List FilePath → M H (Unit {0})
  validate_fallback_roots [] = pure tt
  validate_fallback_roots (path ∷ paths) = do
    (if is_absolute path
        then pure tt
        else bail (text "fallback-root must be absolute: " ++ display path))
    lift (reject_dot_components (text "fallback-root") path)
    (if allowed_fallback_root path
        then pure tt
        else bail (text "fallback-root is outside the macOS system allowlist: " ++ display path))
    validate_fallback_roots paths

  unfoldable pub validate_mount_args : MountArgs → M H (Unit {0})
  validate_mount_args args = do
    validate_mount_layout args.mount_point args.visible_root args.lower args.upper args.whiteouts
    validate_fallback_roots args.fallback_roots
    present ← is_dir args.mount_point
    (if present
        then pure tt
        else bail (text "mount-point " ++ (display args.mount_point ++ text " does not exist")))
    perform (create_dir_all args.lower)
    perform (create_dir_all args.upper)
    perform (create_dir_all args.whiteouts)
