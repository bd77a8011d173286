-- ===== src/Service/Invariant/Envs.antt =====
-- Stopping, destroying and inspecting an environment keep the stored metadata valid.
use ipa_rs_agent_controller.Common.{List, [], ◌∷◌}
use ipa_rs_agent_controller.Common.Text.{Text}
use ipa_rs_agent_controller.Host.{Host}
use ipa_rs_agent_controller.Host.Effect.{M, exists, lift}
use ipa_rs_agent_controller.Host.Keeps.{
  Keeps, Keeps-pure, Keeps-bind, Keeps-exists, Keeps-lift, Keeps-if, keeps_rules,
}
use ipa_rs_agent_controller.Storage.Files.{read_json}
use ipa_rs_agent_controller.Storage.Files.Keeps.{Keeps-read_json}
use ipa_rs_agent_controller.Storage.Records.{list_env_entries, list_envs}
use ipa_rs_agent_controller.Service.Logs.{Service, layout}
use ipa_rs_agent_controller.Service.Guards.{read_env-Keeps}
use ipa_rs_agent_controller.Service.Envs.{env_status, env_list, env_destroy}
use ipa_rs_agent_controller.Service.Start.{env_stop}
use ipa_rs_agent_controller.Service.Invariant.{Trusted, StoredValid}
use ipa_rs_agent_controller.Service.Invariant.Stored.{Keeps-write_env}
use ipa_rs_agent_controller.Service.Invariant.Sessions.{Keeps-log_daemon, Keeps-log_lifecycle}
use ipa_rs_agent_controller.Service.Invariant.Machines.{
  stop-Safe, refresh_state-Safe, remove_config-Safe, umount_overlay_rootfs-Safe,
  remove_dir_all_if_exists-Safe, remove_rootfs-Safe, over_quota-Safe, env_disk_used-Safe,
}

module _ {H : Host} (s : Service) (trusted : Trusted H (layout s)) where
  abbrev Safe : {X : Type 0} → M H X → Type 0
  Safe m = Keeps {H = H} (StoredValid (layout s)) m

  pub env_stop-Safe : (id : Text) → Safe (env_stop s id)
  unfolding env_stop
  env_stop-Safe id =
      search
        (
          keeps_rules, read_env-Keeps, Keeps-log_daemon, Keeps-log_lifecycle, stop-Safe,
          refresh_state-Safe, umount_overlay_rootfs-Safe, Keeps-write_env,
        )
        depth 60 fits 8000

  pub env_destroy-Safe : (id : Text) → Safe (env_destroy s id)
  unfolding env_destroy
  env_destroy-Safe id =
      search
        (
          keeps_rules, read_env-Keeps, Keeps-log_daemon, Keeps-log_lifecycle, stop-Safe,
          remove_rootfs-Safe, remove_config-Safe, remove_dir_all_if_exists-Safe,
        )
        depth 60 fits 8000

  pub env_status-Safe : (id : Text) → Safe (env_status s id)
  unfolding env_status
  env_status-Safe id =
      search
        (
          keeps_rules, read_env-Keeps, refresh_state-Safe, stop-Safe, Keeps-log_lifecycle,
          over_quota-Safe, env_disk_used-Safe, Keeps-write_env,
        )
        depth 60 fits 8000

  list_env_entries-Safe : (names : List Text) → Safe (list_env_entries (layout s) names)
  unfolding list_env_entries
  list_env_entries-Safe [] = Keeps-pure []
  list_env_entries-Safe (name ∷ names) =
      let rest = list_env_entries-Safe names in
      Keeps-bind (exists _) _ (Keeps-exists _) λ present.
        Keeps-if present _ _
          (Keeps-bind (read_json H.env_json _) _ (Keeps-read_json _ _) λ env.
            Keeps-bind (lift _) _ (Keeps-lift _) λ _.
              Keeps-bind (list_env_entries (layout s) names) _ rest λ envs. Keeps-pure (env ∷ envs))
          rest

  list_envs-Safe : Safe (list_envs (layout s))
  unfolding list_envs
  list_envs-Safe = search (keeps_rules, list_env_entries-Safe) depth 20

  pub env_list-Safe : Safe (env_list s)
  unfolding env_list
  env_list-Safe = search (keeps_rules, list_envs-Safe, env_status-Safe) depth 20
