-- ===== src/Tests/Runs.antt =====
-- The theorems on actions, each on one host and one world.
use ipa_rs_agent_controller.Common.{
  ◌≡◌, ◌⊎◌, refl, ap, some, [], ◌∷◌, ◌++◌, ok, err, list_eq, nat_eq,
}
use ipa_rs_agent_controller.Common.{contains, context}
use ipa_rs_agent_controller.Common.Text.{
  Text, text, all_chars, bytes, utf8, is_empty, is_ascii_alphanumeric, is_ascii_alphabetic,
  is_ascii_digit, to_ascii_lowercase, trim, span_until, split_on, starts_with, strip_suffix, show,
}
use ipa_rs_agent_controller.Path.{
  FilePath, path, normal, component_eq, join_path, parent, file_name, with_file_name, ◌/◌,
}
use ipa_rs_agent_controller.Path.Laws.{IsName, undotted-IsName}
use ipa_rs_agent_controller.Model.{
  EnvState, env_state_eq, overlay, Env, default_limits, default_policy, machine_name,
}
use ipa_rs_agent_controller.Model.Limit
use ipa_rs_agent_controller.Model.Limit.{
  validate_cpu_max, is_unlimited, duration_limit, split_number_unit, validate_duration_limit,
  validate_positive_decimal, validate_size_limit,
}
use ipa_rs_agent_controller.Model.Policy
use ipa_rs_agent_controller.Host.{io_result, Codec}
use ipa_rs_agent_controller.Host.Effect.{
  World, ◌>>=◌, lift, pure, bail, perform, perform_io, ignore, attempt, on_error,
}
use ipa_rs_agent_controller.Storage.Ids.{validate_id, is_valid_id}
use ipa_rs_agent_controller.Storage.Metadata.{validate_env_metadata, expected_rootfs}
use ipa_rs_agent_controller.Host.Lawful.{Reads}
use ipa_rs_agent_controller.Storage.Layout.{env_dir, envs_dir, env_rootfs}
use ipa_rs_agent_controller.Storage.Files.{
  tmp_name, unique_tmp_path, with_context, write_file, write_json, write_tmp_and_rename,
}
use ipa_rs_agent_controller.Storage.Files.Laws.{write_json-whole}
use ipa_rs_agent_controller.Storage.Records.{env_meta, read_env, write_env}
use ipa_rs_agent_controller.Storage.Records.Laws.{CodecLaw, write_env-read_env}
use ipa_rs_agent_controller.Config.{new_config}
use ipa_rs_agent_controller.Service.Logs.{Service, layout}
use ipa_rs_agent_controller.Service.Guards.{refusal, idle_env-refused}
use ipa_rs_agent_controller.Service.Start.{exec}
use ipa_rs_agent_controller.Service.Sessions.{
  session_create, shell_attach_target, session_attach_target, session_detach, session_kill,
}
use ipa_rs_agent_controller.Storage.Metadata.Laws.{validate_env_metadata-own}
use ipa_rs_agent_controller.Tests.Codecs.{env_codec-law}
use ipa_rs_agent_controller.Tests.Machine.{machine, empty_world, machine-Lawful}

abbrev pub service : Service
service = record { config = new_config (path (text "/agentfs")) }

abbrev pub dev : Env
dev = record {
  id = text "dev";
  base_id = text "base";
  backend = overlay;
  rootfs_path = env_rootfs (layout service) (text "dev");
  machine_name = machine_name (text "dev");
  state = EnvState.stopped;
  profile = text "privileged-dev";
  created_at = 1;
  last_active_at = 2;
  limits = default_limits;
  network_policy = default_policy;
  sessions = [];
}

dev_written : (write_env {H = machine} (layout service) dev empty_world).0 ≡ ok tt
unfolding write_env ◌>>=◌ lift pure bail perform perform_io ignore attempt on_error io_result
    validate_env_metadata validate_id is_valid_id is_empty text bytes utf8 is_ascii_alphanumeric
    is_ascii_alphabetic is_ascii_digit all_chars list_eq nat_eq Limit.validate contains
    default_limits validate_cpu_max is_unlimited to_ascii_lowercase trim context span_until split_on
    starts_with strip_suffix duration_limit split_number_unit validate_duration_limit
    validate_positive_decimal validate_size_limit Policy.validate machine_name component_eq
    join_path path parent file_name with_file_name ◌/◌ tmp_name unique_tmp_path with_context
    write_file write_json write_tmp_and_rename env_dir env_rootfs envs_dir expected_rootfs env_meta
    show machine empty_world new_config
dev_written = refl

pub env_json-law : CodecLaw machine.env_json
unfolding machine
env_json-law = env_codec-law

write_env-read_env_example :
    read_env {H = machine}
      (layout service)
      (text "dev")
      (write_env {H = machine} (layout service) dev empty_world).1
    ≡ (ok dev, (write_env {H = machine} (layout service) dev empty_world).1)
write_env-read_env_example =
    write_env-read_env machine-Lawful env_json-law (layout service) dev empty_world dev_written

-- The world with the metadata of `dev`.
abbrev with_dev : World machine
with_dev = (write_env {H = machine} (layout service) dev empty_world).1

s1_valid : validate_id (text "s1") ≡ ok tt
unfolding validate_id is_valid_id text bytes utf8 all_chars is_empty is_ascii_alphanumeric
s1_valid = refl

dev_stored : read_env {H = machine} (layout service) (text "dev") with_dev ≡ (ok dev, with_dev)
dev_stored =
    write_env-read_env machine-Lawful env_json-law (layout service) dev empty_world dev_written

idle_env-refused_example :
    (exec {H = machine} service (text "dev") (text "ls" ∷ []) with_dev
      ≡ (err (refusal dev), with_dev))
    × (session_create {H = machine} service (text "dev") (text "s1") (text "ls" ∷ []) with_dev
        ≡ (err (refusal dev), with_dev))
    × (shell_attach_target {H = machine} service (text "dev") with_dev
        ≡ (err (refusal dev), with_dev))
    × (session_attach_target {H = machine} service (text "dev") (text "s1") with_dev
        ≡ (err (refusal dev), with_dev))
    × (session_detach {H = machine} service (text "dev") (text "s1") with_dev
        ≡ (err (refusal dev), with_dev))
    × (session_kill {H = machine} service (text "dev") (text "s1") with_dev
        ≡ (err (refusal dev), with_dev))
unfolding env_state_eq is_empty
idle_env-refused_example =
    idle_env-refused service (text "dev") dev with_dev (ap (λ r. r.0) dev_stored) refl (text "s1")
      (text "ls" ∷ []) s1_valid refl

-- A text as it stands, in place of JSON.
abbrev plain_text : Codec Text
plain_text = record { to_json = λ t. t; from_json = λ t. some t }

note-IsName : IsName (text "note")
unfolding text all_chars
note-IsName = undotted-IsName _ _ refl refl

abbrev note : FilePath
note = normal (text "agentfs") ∷ normal (text "note") ∷ []

abbrev noted : World machine
noted = (write_json {H = machine} plain_text note (text "hello") empty_world).1

note_read : Reads machine noted.os note (text "hello\n")
unfolding write_json write_file write_tmp_and_rename unique_tmp_path tmp_name with_file_name
    file_name parent ◌/◌ path join_path split_on ◌>>=◌ lift pure bail perform perform_io ignore
    attempt on_error io_result with_context context text show list_eq nat_eq component_eq machine
    empty_world
note_read = refl

write_json-whole_example :
    (text "hello\n" ≡ text "hello" ++ text "\n")
    ⊎ Reads machine empty_world.os note (text "hello\n")
write_json-whole_example =
    write_json-whole machine-Lawful plain_text (normal (text "agentfs") ∷ []) (text "note")
      note-IsName (text "hello") empty_world (text "hello\n") note_read

dev_valid : validate_env_metadata machine.floats (layout service) dev (some (text "dev")) ≡ ok tt
unfolding validate_env_metadata validate_id is_valid_id is_empty text bytes utf8
    is_ascii_alphanumeric is_ascii_alphabetic is_ascii_digit all_chars list_eq nat_eq Limit.validate
    contains default_limits validate_cpu_max is_unlimited to_ascii_lowercase trim context span_until
    split_on starts_with strip_suffix duration_limit split_number_unit validate_duration_limit
    validate_positive_decimal validate_size_limit Policy.validate machine_name component_eq
    join_path path ◌/◌ env_dir env_rootfs envs_dir expected_rootfs machine new_config
dev_valid = refl

validate_env_metadata-own_example :
    (dev.id ≡ text "dev")
    × (validate_id (text "dev") ≡ ok tt)
    × (dev.machine_name ≡ machine_name (text "dev"))
    × (dev.rootfs_path ≡ expected_rootfs (layout service) dev.backend (text "dev"))
    × (Limit.validate machine.floats dev.limits ≡ ok tt)
    × (Policy.validate dev.network_policy ≡ ok tt)
    × (validate_id dev.base_id ≡ ok tt)
validate_env_metadata-own_example =
    validate_env_metadata-own machine.floats (layout service) dev (text "dev") dev_valid
