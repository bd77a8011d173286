-- ===== src/Service/Invariant/Sessions.antt =====
-- The operations on commands and sessions keep the stored metadata valid.
use ipa_rs_agent_controller.Common.{
  ◌+◌, ◌≡◌, ◌≢◌, refl, sym, ap, ◌∙◌, true, List, [], ◌∷◌, ◌++◌, Option, some, arith, list_eq,
  nat_eq, ◌≤◌, >>=-eq-ok,
}
use ipa_rs_agent_controller.Common.{ok}
use ipa_rs_agent_controller.Common.Lists.{length, length-append, snoc-injective, append_assoc}
use ipa_rs_agent_controller.Common.Text.{Text, text, all_chars}
use ipa_rs_agent_controller.Path.{FilePath, normal, ◌/◌}
use ipa_rs_agent_controller.Path.Laws.{IsName, no_slash, append_name, undotted-IsName}
use ipa_rs_agent_controller.Model.{Env, Session}
use ipa_rs_agent_controller.Host.{Host}
use ipa_rs_agent_controller.Host.Keeps.{Keeps, Keeps-bind_lift, keeps_rules}
use ipa_rs_agent_controller.Storage.Ids.{is_valid_id, validate_id}
use ipa_rs_agent_controller.Storage.Ids.Laws.{is_valid_id-IsName}
use ipa_rs_agent_controller.Storage.Layout.{
  Layout, env_dir, env_logs, daemon_log, lifecycle_log, session_logs, sessions_dir,
}
use ipa_rs_agent_controller.Storage.Layout.Laws.{env_dir-names}
use ipa_rs_agent_controller.Storage.Metadata.{validate_session_metadata, check_id, check_path}
use ipa_rs_agent_controller.Storage.Files.{write_json}
use ipa_rs_agent_controller.Storage.Files.Temporary.{no_slash-append}
use ipa_rs_agent_controller.Storage.Records.{session_meta, write_session}
use ipa_rs_agent_controller.Storage.Records.Laws.{env_meta-name}
use ipa_rs_agent_controller.Service.Logs.{
  Service, layout, append_env_log, log_daemon, log_lifecycle, mark_env_active,
}
use ipa_rs_agent_controller.Nspawn
use ipa_rs_agent_controller.Btrfs.{quota_exceeded}
use ipa_rs_agent_controller.Service.Start.{exec}
use ipa_rs_agent_controller.Service.Guards.{read_env-Keeps}
use ipa_rs_agent_controller.Service.Invariant.{Trusted, StoredValid}
use ipa_rs_agent_controller.Service.Invariant.Files.{
  Other, Named, join-Other, snoc-Other, Named-join,
}
use ipa_rs_agent_controller.Service.Invariant.Actions.{
  Keeps-append_to_file, Keeps-write_file, Keeps-run,
}
use ipa_rs_agent_controller.Service.Invariant.Stored.{Keeps-write_env, validate_id-valid}

daemon_log-Other : (l : Layout) (id : Text) → Other l (daemon_log l id)
unfolding daemon_log text all_chars list_eq nat_eq
daemon_log-Other l id = join-Other l (env_logs l id) (text "agent-forkd.log") refl

lifecycle_log-Other : (l : Layout) (id : Text) → Other l (lifecycle_log l id)
unfolding lifecycle_log text all_chars list_eq nat_eq
lifecycle_log-Other l id = join-Other l (env_logs l id) (text "lifecycle.log") refl

exec_log-Other : (l : Layout) (id : Text) → Other l (env_logs l id / text "exec.log")
unfolding text all_chars list_eq nat_eq
exec_log-Other l id = join-Other l (env_logs l id) (text "exec.log") refl

nonempty-length : (s : Text) → s ≢ [] → 1 ≤ length s
nonempty-length [] h = absurd (h refl)
nonempty-length (c ∷ s) h = omega arith

-- A valid id with something behind it that has no slash is a file name.
suffixed-IsName :
    (id s : Text) → is_valid_id id ≡ true → no_slash s ≡ true → (2 ≤ length s) → IsName (id ++ s)
suffixed-IsName id s h slashless long =
    let name = (is_valid_id-IsName id h).0 in
    let filled : 1 ≤ length id = nonempty-length id name.nonempty in
    let sum = length-append id s in
    record {
      slashless = no_slash-append id s name.slashless slashless;
      nonempty = λ e. absurd (omega (arith, ap length e));
      not_dot = λ e. absurd (omega (arith, ap length e));
      not_dot_dot = λ e. absurd (omega (arith, ap length e));
    }

pub session_log-Other :
    (l : Layout) (env_id id : Text)
    → is_valid_id id ≡ true
    → Other l (session_logs l env_id / (id ++ text ".log"))
unfolding text all_chars
session_log-Other l env_id id h =
    let named = suffixed-IsName id (text ".log") h refl (omega arith) in
    rw (append_name (session_logs l env_id) (id ++ text ".log") named) (
      snoc-Other l (session_logs l env_id) (id ++ text ".log") (λ e.
        let (_, last) =
          snoc-injective (id ++ text ".lo") (text "meta.jso") b'g' b'n'
            (append_assoc id (text ".lo") (b'g' ∷ []) ∙ e) in
        absurd (omega (arith, last))))

pub session_log-Named :
    (l : Layout) (env_id id : Text)
    → is_valid_id id ≡ true
    → Named (session_logs l env_id / (id ++ text ".log"))
unfolding text all_chars
session_log-Named l env_id id h =
    Named-join (session_logs l env_id) (id ++ text ".log")
      (suffixed-IsName id (text ".log") h refl (omega arith))

pub env_dir-length :
    (l : Layout) (id : Text) → is_valid_id id ≡ true → length (env_dir l id) ≡ length l.agentfs + 2
env_dir-length l id h =
    let names = ap length (env_dir-names l id h) in
    omega (
      arith,
      names,
      length-append l.agentfs (normal (text "envs") ∷ []),
      length-append (l.agentfs ++ (normal (text "envs") ∷ [])) (normal id ∷ []),
    )

-- A session's metadata lies one directory deeper than an environment's.
session_meta-Other :
    (l : Layout) (env_id id : Text)
    → is_valid_id env_id ≡ true
    → is_valid_id id ≡ true
    → Other l (session_meta l env_id id)
unfolding session_meta sessions_dir text all_chars
session_meta-Other l env_id id he h = record {
  apart = λ other v e.
      let named = suffixed-IsName id (text ".json") h refl (omega arith) in
      let sessions_named : IsName (text "sessions") = undotted-IsName _ _ refl refl in
      let shape : session_meta l env_id id
          ≡ (env_dir l env_id ++ (normal (text "sessions") ∷ []))
            ++ (normal (id ++ text ".json") ∷ []) =
        append_name (sessions_dir l env_id) (id ++ text ".json") named
        ∙ ap (λ d. d ++ (normal (id ++ text ".json") ∷ []))
            (append_name (env_dir l env_id) (text "sessions") sessions_named) in
      let lengths = ap length (sym (env_meta-name l other) ∙ e ∙ shape) in
      absurd (
        omega (
          arith,
          lengths,
          env_dir-length l other v,
          env_dir-length l env_id he,
          length-append (env_dir l other) (normal (text "meta.json") ∷ []),
          length-append (env_dir l env_id) (normal (text "sessions") ∷ []),
          length-append (env_dir l env_id ++ (normal (text "sessions") ∷ []))
              (normal (id ++ text ".json") ∷ []),
        ));
}

pub session_ids-valid :
    (l : Layout) (session : Session) (a b : Option Text)
    → validate_session_metadata l session a b ≡ ok tt
    → (is_valid_id session.env_id ≡ true) × (is_valid_id session.id ≡ true)
unfolding validate_session_metadata
session_ids-valid l session a b h =
    let (_, env_ok, h₁) = >>=-eq-ok (validate_id session.env_id) _ h in
    let (_, id_ok, _) = >>=-eq-ok (validate_id session.id) _ h₁ in
    (validate_id-valid session.env_id env_ok, validate_id-valid session.id id_ok)

-- The last check is that of the log's path.
pub session_log_path-valid :
    (l : Layout) (session : Session) (a b : Option Text)
    → validate_session_metadata l session a b ≡ ok tt
    → session.log_path ≡ session_logs l session.env_id / (session.id ++ text ".log")
unfolding validate_session_metadata check_path
session_log_path-valid l session a b h =
    let (_, _, h1) = >>=-eq-ok (validate_id session.env_id) _ h in
    let (_, _, h2) = >>=-eq-ok (validate_id session.id) _ h1 in
    let (_, _, h3) = >>=-eq-ok (check_id _ _ session.env_id a) _ h2 in
    let (_, _, h4) = >>=-eq-ok (check_id _ _ session.id b) _ h3 in ground arith

session_meta-Named :
    (l : Layout) (env_id id : Text) → is_valid_id id ≡ true → Named (session_meta l env_id id)
unfolding session_meta text all_chars
session_meta-Named l env_id id h =
    Named-join (sessions_dir l env_id) (id ++ text ".json")
      (suffixed-IsName id (text ".json") h refl (omega arith))

module _ {H : Host} (s : Service) (trusted : Trusted H (layout s)) where
  append_env_log-Keeps :
      (p : FilePath) (m : Text)
      → Other (layout s) p
      → Keeps {H = H} (StoredValid (layout s)) (append_env_log p m)
  unfolding append_env_log
  append_env_log-Keeps p m o = search (keeps_rules, Keeps-append_to_file)

  pub Keeps-log_daemon : (id m : Text) → Keeps {H = H} (StoredValid (layout s)) (log_daemon s id m)
  unfolding log_daemon
  Keeps-log_daemon id m = append_env_log-Keeps _ m (daemon_log-Other (layout s) id)

  pub Keeps-log_lifecycle :
      (id m : Text) → Keeps {H = H} (StoredValid (layout s)) (log_lifecycle s id m)
  unfolding log_lifecycle
  Keeps-log_lifecycle id m = append_env_log-Keeps _ m (lifecycle_log-Other (layout s) id)

  pub write_session-Keeps :
      (session : Session)
      → Keeps {H = H} (StoredValid (layout s)) (write_session (layout s) session)
  unfolding write_session write_json
  write_session-Keeps session =
      Keeps-bind_lift
        (validate_session_metadata (layout s) session (some session.env_id) (some session.id)) _
        λ _ valid.
          let (env_ok, id_ok) = session_ids-valid (layout s) session _ _ valid in
          Keeps-write_file (layout s) trusted _ (session_meta (layout s) session.env_id session.id)
            _ true (session_meta-Other (layout s) session.env_id session.id env_ok id_ok)
            (session_meta-Named (layout s) session.env_id session.id id_ok)

  pub mark_env_active-Keeps :
      (env : Env) → Keeps {H = H} (StoredValid (layout s)) (mark_env_active {H = H} env)
  unfolding mark_env_active
  mark_env_active-Keeps env = search (keeps_rules)

  nspawn_exec-Keeps :
      (env : Env) (command : List Text) (log : FilePath)
      → Other (layout s) log
      → Keeps {H = H} (StoredValid (layout s)) (Nspawn.exec {H = H} env command log)
  unfolding Nspawn.exec
  nspawn_exec-Keeps env command log o = search (keeps_rules, Keeps-run, Keeps-append_to_file)

  pub quota_exceeded-Keeps :
      (p : FilePath) → Keeps {H = H} (StoredValid (layout s)) (quota_exceeded {H = H} p)
  unfolding quota_exceeded
  quota_exceeded-Keeps p = search (keeps_rules, Keeps-run)

  pub exec-Keeps :
      (id : Text) (command : List Text) → Keeps {H = H} (StoredValid (layout s)) (exec s id command)
  unfolding exec
  exec-Keeps id command =
      search
        (
          keeps_rules, read_env-Keeps, Keeps-log_daemon, Keeps-log_lifecycle, nspawn_exec-Keeps,
          exec_log-Other, mark_env_active-Keeps, quota_exceeded-Keeps, Keeps-write_env,
        )
        depth 40 fits 4000
