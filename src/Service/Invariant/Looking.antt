-- ===== src/Service/Invariant/Looking.antt =====
-- Listing sessions, showing logs and telling what changed keep the stored metadata valid.
use ipa_rs_agent_controller.Common.{
  ◌++◌, ℕ, zero, suc, refl, true, Option, none, some, List, [], ◌∷◌, list_eq, nat_eq, ◌==◌,
  if◌then◌else◌,
}
use ipa_rs_agent_controller.Common.Text.{Text, text, all_chars}
use ipa_rs_agent_controller.Path.{FilePath, ◌/◌}
use ipa_rs_agent_controller.Model.{EnvState, env_state_eq, Env, Base, Session}
use ipa_rs_agent_controller.Host.{Host, Metadata, FileType, regular, symlink}
use ipa_rs_agent_controller.Host.Effect.{M, pure, ◌>>=◌, ◌>>◌}
use ipa_rs_agent_controller.Host.Keeps.{
  Keeps, Keeps-pure, Keeps-read, Keeps-bind, Keeps-bind_ok, Keeps-if, Keeps-lift, Keeps-exists,
  keeps_rules,
}
use ipa_rs_agent_controller.Storage.Files.Keeps.{Keeps-with_context, Keeps-read_json}
use ipa_rs_agent_controller.Storage.Files.{write_text_file}
use ipa_rs_agent_controller.Storage.Records.{
  write_env, json_stem, session_entry, read_session, list_session_entries, list_sessions,
}
use ipa_rs_agent_controller.Storage.Records.Laws.{read_session-valid}
use ipa_rs_agent_controller.Export.{
  ExportType, workspace_patch_type, rootfs_changed_paths, dpkg_delta_type, artifact_name,
  workspace_patch, dpkg_delta, files_differ, links_differ, compare_types, path_changed_from,
  path_changed, env_entries, base_entries, changed_paths_by_walk,
}
use ipa_rs_agent_controller.Reflink.{is_dir}
use ipa_rs_agent_controller.Session
use ipa_rs_agent_controller.Service.Logs.{
  Service, layout, log_daemon, log_lifecycle, mark_env_active,
}
use ipa_rs_agent_controller.Service.Guards.{read_env-Keeps}
use ipa_rs_agent_controller.Service.Sessions.{
  or_empty, make_parent, offline_from, read_offline_session_log, session_logs_text,
  refresh_sessions, write_synced, session_list,
}
use ipa_rs_agent_controller.Service.Exports.{
  entry_line, dir_entries, collect_overlay_changed_paths, overlay_changed_paths, diff, export_text,
  export,
}
use ipa_rs_agent_controller.Service.Invariant.{Trusted, StoredValid}
use ipa_rs_agent_controller.Service.Invariant.Files.{Other, Named}
use ipa_rs_agent_controller.Service.Invariant.Actions.{
  Keeps-run, Keeps-run_checked, Keeps-write_text_file,
}
use ipa_rs_agent_controller.Service.Invariant.Stored.{Keeps-write_env}
use ipa_rs_agent_controller.Service.Invariant.Sessions.{
  session_log-Other, session_log-Named, session_ids-valid, session_log_path-valid,
  write_session-Keeps, mark_env_active-Keeps, Keeps-log_daemon, Keeps-log_lifecycle,
}
use ipa_rs_agent_controller.Service.Invariant.Operations.{read_session-Safe}
use ipa_rs_agent_controller.Service.Invariant.Starting.{
  dir-Safe, ensure_env_rootfs_mounted-Safe, read_base-Safe,
}
use ipa_rs_agent_controller.Service.Invariant.Freezing.{text_file-Safe, write_dpkg_manifest-Safe}

module _ {H : Host} (s : Service) (trusted : Trusted H (layout s)) where
  abbrev Safe : {X : Type 0} → M H X → Type 0
  Safe m = Keeps {H = H} (StoredValid (layout s)) m

  session_entry-Safe :
      (env_id name : Text) (others : M H (List Session)) (o : Option Text)
      → Safe others
      → Safe (session_entry (layout s) env_id name others o)
  unfolding session_entry
  session_entry-Safe env_id name others none k = k
  session_entry-Safe env_id name others (some stem) k =
      search (keeps_rules, Keeps-read_json) depth 12

  list_session_entries-Safe :
      (env_id : Text) (names : List Text) → Safe (list_session_entries (layout s) env_id names)
  unfolding list_session_entries
  list_session_entries-Safe env_id [] = Keeps-pure []
  list_session_entries-Safe env_id (name ∷ names) =
      session_entry-Safe env_id name _ (json_stem name) (list_session_entries-Safe env_id names)

  list_sessions-Safe : (env_id : Text) → Safe (list_sessions (layout s) env_id)
  unfolding list_sessions
  list_sessions-Safe env_id = search (keeps_rules, list_session_entries-Safe) depth 20

  refresh_sessions-Safe :
      (live : List Text) (sessions : List Session) → Safe (refresh_sessions s live sessions)
  unfolding refresh_sessions
  refresh_sessions-Safe live [] = Keeps-pure []
  refresh_sessions-Safe live (session ∷ sessions) = Keeps-bind _ _ (Keeps-pure _) λ fresh.
      Keeps-bind _ _ (write_session-Keeps s trusted fresh)
        λ _. Keeps-bind _ _ (refresh_sessions-Safe live sessions) λ rest. Keeps-pure _

  write_synced-Safe : (o : Option Env) → Safe (write_synced s o)
  unfolding write_synced
  write_synced-Safe none = Keeps-pure tt
  write_synced-Safe (some env) = Keeps-write_env (layout s) trusted env

  tmux_list-Safe : (env : Env) → Safe (Session.list env)
  unfolding Session.list
  tmux_list-Safe env = search (keeps_rules, Keeps-run) depth 12

  tmux_logs-Safe :
      (env : Env) (id : Text) (log : FilePath)
      → Other (layout s) log
      → Named log
      → Safe (Session.logs env id log)
  unfolding Session.logs
  tmux_logs-Safe env id log o n = search (keeps_rules, Keeps-run, Keeps-write_text_file) depth 20

  make_parent-Safe : (o : Option FilePath) → Safe (make_parent s o)
  unfolding make_parent
  make_parent-Safe none = Keeps-pure tt
  make_parent-Safe (some d) = dir-Safe (layout s) trusted d

  or_empty-Safe : (o : Option Text) → Safe (or_empty s o)
  unfolding or_empty
  or_empty-Safe none = Keeps-pure _
  or_empty-Safe (some t) = Keeps-pure t

  offline_from-Safe :
      (log : FilePath) (o : Option Text)
      → Other (layout s) log
      → Named log
      → Safe (offline_from s log o)
  unfolding offline_from
  offline_from-Safe log none o n = search (keeps_rules, or_empty-Safe)
  offline_from-Safe log (some t) o n =
      search (keeps_rules, make_parent-Safe, Keeps-write_text_file) depth 12

  offline-Safe :
      (transcript log : FilePath)
      → Other (layout s) log
      → Named log
      → Safe (read_offline_session_log s transcript log)
  unfolding read_offline_session_log
  offline-Safe transcript log o n = search (keeps_rules, offline_from-Safe) depth 12

  -- What follows the reading of the session.
  shown-Safe :
      (env_id id : Text) (env : Env) (log : FilePath)
      → Other (layout s) log
      → Named log
      → Safe (
          (if env.state == EnvState.running
            then Session.logs env id log
            else read_offline_session_log s (Session.host_transcript_path env id) log)
          >>= λ logs.
              log_daemon s env_id (text "session " ++ (id ++ text " logs synced"))
              >> (log_lifecycle s env_id (text "session " ++ (id ++ text " logs synced"))
                  >> (mark_env_active env >>= λ active. write_env (layout s) active >> pure logs)))
  shown-Safe env_id id env log o n =
      search
        (
          keeps_rules, tmux_logs-Safe, offline-Safe, Keeps-log_daemon, Keeps-log_lifecycle,
          mark_env_active-Keeps, Keeps-write_env,
        )
        depth 30 fits 4000

  pub session_logs_text-Safe : (env_id id : Text) → Safe (session_logs_text s env_id id)
  unfolding session_logs_text
  session_logs_text-Safe env_id id = Keeps-bind _ _ (read_env-Keeps (layout s) env_id) λ env.
      Keeps-bind_ok (read_session (layout s) env_id id) _ (read_session-Safe s trusted env_id id)
        λ session w e.
          let valid = read_session-valid (layout s) env_id id session w e in
          let (_, good) = session_ids-valid (layout s) session (some env_id) (some id) valid in
          let at = session_log_path-valid (layout s) session (some env_id) (some id) valid in
          shown-Safe env_id id env session.log_path
            (rw at (session_log-Other (layout s) session.env_id session.id good))
            (rw at (session_log-Named (layout s) session.env_id session.id good))

  pub session_list-Safe : (env_id : Text) → Safe (session_list s env_id)
  unfolding session_list
  session_list-Safe env_id =
      search
        (
          keeps_rules, read_env-Keeps, tmux_list-Safe, list_sessions-Safe, refresh_sessions-Safe,
          write_synced-Safe,
        )
        depth 20

  workspace_patch-Safe : (env : Env) → Safe (workspace_patch env)
  unfolding workspace_patch
  workspace_patch-Safe env = search (keeps_rules, Keeps-run_checked) depth 12

  pub diff-Safe : (env_id : Text) → Safe (diff s env_id)
  unfolding diff
  diff-Safe env_id =
      search
        (
          keeps_rules, read_env-Keeps, ensure_env_rootfs_mounted-Safe, mark_env_active-Keeps,
          Keeps-write_env, workspace_patch-Safe,
        )
        depth 20

  dpkg_delta-Safe : (a b : FilePath) → Safe (dpkg_delta a b)
  unfolding dpkg_delta
  dpkg_delta-Safe a b = search (keeps_rules)

  files_differ-Safe : (a b : FilePath) → Safe (files_differ a b)
  unfolding files_differ
  files_differ-Safe a b = search (keeps_rules) depth 12

  links_differ-Safe : (a b : FilePath) → Safe (links_differ a b)
  unfolding links_differ
  links_differ-Safe a b = search (keeps_rules) depth 12

  compare_types-Safe : (a b : FilePath) (t u : FileType) → Safe (compare_types a b t u)
  unfolding compare_types
  compare_types-Safe a b regular regular = files_differ-Safe a b
  compare_types-Safe a b symlink symlink = links_differ-Safe a b
  compare_types-Safe a b _ _ = Keeps-pure _

  path_changed_from-Safe : (a b : FilePath) (o : Option Metadata) → Safe (path_changed_from a b o)
  unfolding path_changed_from
  path_changed_from-Safe a b none = Keeps-pure true
  path_changed_from-Safe a b (some m) = search (keeps_rules, compare_types-Safe) depth 12

  path_changed-Safe : (a b : FilePath) → Safe (path_changed a b)
  unfolding path_changed
  path_changed-Safe a b = search (keeps_rules, path_changed_from-Safe)

  env_entries-Safe : (a b : FilePath) (rels : List FilePath) → Safe (env_entries a b rels)
  unfolding env_entries
  env_entries-Safe a b [] = Keeps-pure []
  env_entries-Safe a b (rel ∷ rels) =
      Keeps-bind _ _ (search (keeps_rules, path_changed-Safe))
        λ changed. Keeps-bind _ _ (env_entries-Safe a b rels) λ rest. Keeps-pure _

  base_entries-Safe : (b : FilePath) (rels : List FilePath) → Safe (base_entries b rels)
  unfolding base_entries
  base_entries-Safe b [] = Keeps-pure []
  base_entries-Safe b (rel ∷ rels) =
      Keeps-bind _ _ (search (keeps_rules) depth 12)
        λ deleted. Keeps-bind _ _ (base_entries-Safe b rels) λ rest. Keeps-pure _

  changed_paths_by_walk-Safe : (a b : FilePath) → Safe (changed_paths_by_walk a b)
  unfolding changed_paths_by_walk
  changed_paths_by_walk-Safe a b =
      search (keeps_rules, Keeps-with_context, env_entries-Safe, base_entries-Safe) depth 20

  is_dir-Safe : (p : FilePath) → Safe (is_dir p)
  unfolding is_dir
  is_dir-Safe p = search (keeps_rules)

  entry_line-Safe : (a b c : FilePath) → Safe (entry_line a b c)
  unfolding entry_line
  entry_line-Safe a b c = Keeps-lift _

  dir_entries-Safe :
      (below : FilePath → M H (List Text)) (root d : FilePath) (names : List Text)
      → ((p : FilePath) → Safe (below p))
      → Safe (dir_entries below root d names)
  unfolding dir_entries
  dir_entries-Safe below root d [] k = Keeps-pure []
  dir_entries-Safe below root d (name ∷ names) k =
      let rest = dir_entries-Safe below root d names k in
      Keeps-if _ _ _ rest (
        Keeps-bind _ _ (entry_line-Safe root _ _) λ line.
          Keeps-bind _ _ (is_dir-Safe _) λ is_directory.
            Keeps-bind _ _ (Keeps-if is_directory _ _ (k _) (Keeps-pure []))
              λ inner. Keeps-bind _ _ rest λ more. Keeps-pure _)

  collect-Safe : (fuel : ℕ) (root d : FilePath) → Safe (collect_overlay_changed_paths fuel root d)
  unfolding collect_overlay_changed_paths
  collect-Safe zero root d = Keeps-lift _
  collect-Safe (suc fuel) root d = Keeps-bind _ _ (Keeps-exists d) λ present.
      Keeps-if _ _ _ (Keeps-pure []) (
        Keeps-bind _ _ (Keeps-read _)
          λ names. dir_entries-Safe _ root d names (collect-Safe fuel root))

  overlay_changed_paths-Safe : (env : Env) → Safe (overlay_changed_paths s env)
  unfolding overlay_changed_paths
  overlay_changed_paths-Safe env = search (keeps_rules, collect-Safe)

  export_text-Safe :
      (env_id : Text) (env : Env) (base : Base) (t : ExportType)
      → Safe (export_text s env_id env base t)
  unfolding export_text
  export_text-Safe env_id env base workspace_patch_type = workspace_patch-Safe env
  export_text-Safe env_id env base rootfs_changed_paths =
      Keeps-if _ _ _ (overlay_changed_paths-Safe env) (changed_paths_by_walk-Safe _ _)
  export_text-Safe env_id env base dpkg_delta_type =
      Keeps-bind _ _ (write_dpkg_manifest-Safe (layout s) trusted _ _) λ _. dpkg_delta-Safe _ _

  artifact-Safe :
      (d : FilePath) (t : ExportType) (contents : Text)
      → Safe (write_text_file (d / artifact_name t) contents)
  unfolding artifact_name text all_chars list_eq nat_eq
  artifact-Safe d workspace_patch_type contents =
      text_file-Safe (layout s) trusted d _ contents refl
  artifact-Safe d rootfs_changed_paths contents =
      text_file-Safe (layout s) trusted d _ contents refl
  artifact-Safe d dpkg_delta_type contents = text_file-Safe (layout s) trusted d _ contents refl

  pub export-Safe : (env_id : Text) (t : ExportType) → Safe (export s env_id t)
  unfolding export
  export-Safe env_id t =
      search
        (
          keeps_rules, read_env-Keeps, read_base-Safe, ensure_env_rootfs_mounted-Safe,
          export_text-Safe, artifact-Safe, mark_env_active-Keeps, Keeps-write_env, Keeps-log_daemon,
          Keeps-log_lifecycle,
        )
        depth 30 fits 4000
