-- ===== src/Service/Bases.antt =====
-- Freezing bases: crates/agent-core/src/service.rs.
use ipa_rs_agent_controller.Common.{ℕ, Bool, true, false, not, none, some, List, [], ◌∷◌, ◌++◌}
use ipa_rs_agent_controller.Common.{
  Result, ok, err, panic, eqb, ◌&&◌, list_eq, nat_eq, if◌then◌else◌,
}
use ipa_rs_agent_controller.Common.Text.{
  Text, text, lines, strip_prefix, contains_str, is_empty, join_with,
}
use ipa_rs_agent_controller.Common.Sort.{sort}
use ipa_rs_agent_controller.Path.{FilePath, ◌/◌, is_absolute, display}
use ipa_rs_agent_controller.Host.{Host, is_success, create_dir_all}
use ipa_rs_agent_controller.Host.Effect.{
  M, pure, bail, lift, ◌>>=◌, ◌>>◌, attempt, ignore, read, exists, try_exists, perform, utc_now,
}
use ipa_rs_agent_controller.Model.{RootfsBackend, btrfs, overlay, Base}
use ipa_rs_agent_controller.Storage.Ids.{validate_id}
use ipa_rs_agent_controller.Storage.Layout.{base_dir, base_rootfs}
use ipa_rs_agent_controller.Storage.Files.{write_text_file, with_context}
use ipa_rs_agent_controller.Storage.Records.{ensure_agentfs, write_base, read_base, base_manifest}
use ipa_rs_agent_controller.Command.{run}
use ipa_rs_agent_controller.Btrfs.{
  is_filesystem, is_subvolume, enable_quota, set_readonly, snapshot_writable, delete_subvolume,
}
use ipa_rs_agent_controller.Service.Lifecycle.{base_source_label}
use ipa_rs_agent_controller.Service.Logs.{Service, layout, or_clean, cleanup_failed_dir}
use ipa_rs_agent_controller.Service.Rootfs.{clean_runtime_paths}

grow : ℕ → List Text → List Text
grow c [] = (c ∷ []) ∷ []
grow c (w ∷ ws) = (c ∷ w) ∷ ws

-- `text.split("\n\n")`
unfoldable pub split_blank : Text → List Text
unfolding grow
split_blank [] = [] ∷ []
split_blank (c ∷ []) = (c ∷ []) ∷ []
split_blank (c ∷ d ∷ s) = elim (eqb c b'\n' && eqb d b'\n') [
  | true ↦ [] ∷ split_blank s
  | false ↦ grow c (split_blank (d ∷ s))
]

-- The first line with the prefix, without it.
find_field : Text → Text → List Text → Text
find_field prefix default [] = default
find_field prefix default (line ∷ rest) = elim (strip_prefix line prefix) [
  | some value ↦ value
  | none ↦ find_field prefix default rest
]

-- The packages of a dpkg status file: a block with a name and an installed state is one line.
installed_packages : List Text → List Text
installed_packages [] = []
installed_packages (block ∷ blocks) =
    let name = find_field (text "Package: ") [] (lines block) in
    let state = find_field (text "Status: ") [] (lines block) in
    let version = find_field (text "Version: ") (text "unknown") (lines block) in
    let rest = installed_packages blocks in
    if not (is_empty name) && contains_str state (text " installed")
    then (name ++ (text " " ++ version)) ∷ rest
    else rest

unfoldable pub dpkg_manifest_text : Text → Text
unfolding installed_packages split_blank find_field
dpkg_manifest_text status =
    join_with (text "\n") (sort (installed_packages (split_blank status))) ++ text "\n"

module _ {H : Host} where
  unfoldable pub write_dpkg_manifest : FilePath → FilePath → M H (Unit {0})
  unfolding dpkg_manifest_text
  write_dpkg_manifest rootfs target = do
    present ← exists (rootfs / text "var/lib/dpkg/status")
    (if present
        then (do
          contents ← read (λ s. H.read_to_string s (rootfs / text "var/lib/dpkg/status"))
          write_text_file target (dpkg_manifest_text contents))
        else (do
          output ← with_context (text "failed to collect dpkg manifest") (
              run (text "chroot") (
                display rootfs
                ∷ text "dpkg-query"
                ∷ text "-W"
                ∷ text "-f=${Package} ${Version}\\n"
                ∷ []))
          (if is_success output.status
              then write_text_file target output.stdout
              else bail (text "dpkg-query failed: " ++ output.stderr))))

module _ {H : Host} (s : Service) where
  unfoldable pub init : M H (Unit {0})
  init = do
    ensure_agentfs (layout s)
    on_btrfs ← is_filesystem s.config.agentfs
    (if on_btrfs then enable_quota s.config.agentfs else pure tt)

  unfoldable pub cleanup_failed_base_freeze : FilePath → FilePath → M H (Unit {0})
  cleanup_failed_base_freeze rootfs dir = do
    ignore (set_readonly rootfs false)
    ignore (delete_subvolume rootfs)
    cleanup_failed_dir dir

  -- The end of every freeze: the manifest of packages, the time, and the metadata.
  unfoldable pub finish_base :
      Text → FilePath → RootfsBackend → FilePath → M H (Unit {0}) → M H Base
  finish_base name from backend rootfs cleanup = do
    or_clean (write_dpkg_manifest rootfs (base_dir (layout s) name / text "dpkg.list")) cleanup
    created_at ← utc_now
    or_clean
        (write_text_file (base_dir (layout s) name / text "created_at") (H.to_rfc3339 created_at))
        cleanup
    base ← pure (record {
      id = name;
      backend = backend;
      rootfs_path = rootfs;
      readonly = true;
      created_at = created_at;
      source = base_source_label from;
      dpkg_manifest = base_dir (layout s) name / text "dpkg.list";
    })
    or_clean (write_base (layout s) base) cleanup
    pure base

  unfoldable pub base_freeze_btrfs : Text → FilePath → M H Base
  unfolding finish_base cleanup_failed_base_freeze
  base_freeze_btrfs name from =
      let dir = base_dir (layout s) name in
      let rootfs = base_rootfs (layout s) name in
      let cleanup = cleanup_failed_base_freeze rootfs dir in
      do
        present ← exists dir
        (if present then bail (text "base " ++ (name ++ text " already exists")) else (do
          perform (create_dir_all dir)
          or_clean (snapshot_writable from rootfs) (cleanup_failed_dir dir)
          or_clean (clean_runtime_paths rootfs) cleanup
          or_clean (set_readonly rootfs true) cleanup
          finish_base name from btrfs rootfs cleanup))

  unfoldable pub base_freeze_overlay : Text → FilePath → M H Base
  unfolding finish_base
  base_freeze_overlay name from =
      let dir = base_dir (layout s) name in
      do
        (if is_absolute from
            then pure tt
            else bail (text "overlay base source must be an absolute path"))
        source_exists ← try_exists from
        (if source_exists
            then pure tt
            else bail (text "overlay base source " ++ (display from ++ text " does not exist")))
        present ← exists dir
        (if present then bail (text "base " ++ (name ++ text " already exists")) else (do
          perform (create_dir_all dir)
          finish_base name from overlay from (cleanup_failed_dir dir)))

  unfoldable pub or_false : Result Bool → M H Bool
  or_false (ok b) = pure b
  or_false (err e) = pure false
  or_false (panic e) = lift (panic e)

  unfoldable pub base_freeze : Text → FilePath → M H Base
  unfolding or_false
  base_freeze name from = do
    lift (validate_id name)
    subvolume ← attempt (is_subvolume from) >>= or_false
    (if subvolume then base_freeze_btrfs name from else base_freeze_overlay name from)

  unfoldable pub ensure_base : Text → FilePath → M H Base
  ensure_base base_id from = do
    lift (validate_id base_id)
    present ← try_exists (base_manifest (layout s) base_id)
    (if present then read_base (layout s) base_id else base_freeze base_id from)
