-- ===== src/Tests/Values.antt =====
-- The theorems on texts, limits, paths and messages, each at one input.
use ipa_rs_agent_controller.Common.{
  ℕ, ◌≡◌, ◌↔◌, refl, true, false, some, List, [], ◌∷◌, ◌++◌, arith, ok, list_eq, nat_eq, ◌==◌, not,
  context, contains,
}
use ipa_rs_agent_controller.Common.Lists.{All, Distinct}
use ipa_rs_agent_controller.Common.Dict.{lookup}
use ipa_rs_agent_controller.Common.Text.{
  Text, text, trim, to_ascii_lowercase, is_ascii_alphabetic, is_ascii_digit, all_chars, is_empty,
  span_until, starts_with, strip_suffix, bytes, utf8, is_ascii_alphanumeric, show,
}
use ipa_rs_agent_controller.Path.{path, normal, path_starts_with}
use ipa_rs_agent_controller.Model.{NetworkPolicy, default_limits}
use ipa_rs_agent_controller.Model.Limit.{
  duration_limit, is_unlimited, split_number_unit, validate_positive_decimal, with_overrides,
  duration_units, validate_cpu_max, validate_size_limit, validate_duration_limit,
}
use ipa_rs_agent_controller.Model.Limit.Durations.{Seconds, duration_limit-eq-some}
use ipa_rs_agent_controller.Model.Policy
use ipa_rs_agent_controller.Model.Limit
use ipa_rs_agent_controller.Model.Policy.Laws.{IsPolicy, validate-IsPolicy}
use ipa_rs_agent_controller.Command.Shell.{shell_join}
use ipa_rs_agent_controller.Command.Shell.Words.{words, words-shell_join}
use ipa_rs_agent_controller.Host.{nonneg}
use ipa_rs_agent_controller.Nspawn.Output.{marker, parse_child_exit_status}
use ipa_rs_agent_controller.Nspawn.Output.Marker.{parse_child_exit_status-marker}
use ipa_rs_agent_controller.Storage.Ids.{is_valid_id, validate_id}
use ipa_rs_agent_controller.Storage.Layout.{Layout, env_dir, base_dir}
use ipa_rs_agent_controller.Storage.Layout.Laws.{env_dir-separate}
use ipa_rs_agent_controller.Export.Packages.{package_versions, delta}
use ipa_rs_agent_controller.Export.Packages.Laws.{delta-empty}
use ipa_rs_agent_controller.Protocol.Fields.{
  Json, string, object, reject_unknown_fields, request_allowed_fields,
}
use ipa_rs_agent_controller.Protocol.Fields.Laws.{IsKnown, reject_unknown_fields-IsKnown}
use ipa_rs_agent_controller.Config
use ipa_rs_agent_controller.Config.{AgentConfig, Profile, new_config, profile}
use ipa_rs_agent_controller.Config.Laws.{IsProfile, names_of, validate-ok}
use ipa_rs_agent_controller.Tests.Machine.{whole_numbers}

words-shell_join_example :
    words (shell_join (text "echo" ∷ text "it's" ∷ [] ∷ []))
    ≡ some (text "echo" ∷ text "it's" ∷ [] ∷ [])
words-shell_join_example = words-shell_join (text "echo" ∷ text "it's" ∷ [] ∷ [])

parse_child_exit_status-marker_example :
    parse_child_exit_status (marker ++ (marker ++ (show 127 ++ (b'\n' ∷ []))))
    ≡ some (nonneg 127, marker)
parse_child_exit_status-marker_example = parse_child_exit_status-marker marker 127 (omega arith)

delta-empty_example :
    (delta (package_versions (text "bash 5.2\n")) (package_versions (text "bash 5.1\nsudo 1.9\n"))
      ≡ [])
    ↔ ((pkg : Text)
        → lookup pkg (package_versions (text "bash 5.2\n"))
          ≡ lookup pkg (package_versions (text "bash 5.1\nsudo 1.9\n")))
delta-empty_example = delta-empty (text "bash 5.2\n") (text "bash 5.1\nsudo 1.9\n")

abbrev start_fields : List (Text × Json)
start_fields = (text "type", string (text "env_start")) ∷ (text "id", string (text "dev")) ∷ []

reject_unknown_fields-IsKnown_example :
    (reject_unknown_fields (object start_fields) request_allowed_fields ≡ ok tt)
    ↔ IsKnown start_fields request_allowed_fields
reject_unknown_fields-IsKnown_example =
    reject_unknown_fields-IsKnown start_fields request_allowed_fields

abbrev proxied : NetworkPolicy
proxied = record { egress_proxy = some (text "http://proxy"); allowlist = text "a" ∷ text "b" ∷ [] }

validate-IsPolicy_example : (Policy.validate proxied ≡ ok tt) ↔ IsPolicy proxied
validate-IsPolicy_example = validate-IsPolicy proxied

abbrev agentfs : Layout
agentfs = record { agentfs = path (text "/agentfs") }

valid_dev : is_valid_id (text "dev") ≡ true
unfolding is_valid_id text bytes utf8 all_chars is_empty is_ascii_alphanumeric
valid_dev = refl

valid_test : is_valid_id (text "test-2") ≡ true
unfolding is_valid_id text bytes utf8 all_chars is_empty is_ascii_alphanumeric
valid_test = refl

env_dir-separate_example :
    (path_starts_with
        (env_dir agentfs (text "dev") ++ (normal (text "logs") ∷ []))
        (env_dir agentfs (text "test-2"))
      ≡ (text "dev" == text "test-2"))
    × (path_starts_with
          (env_dir agentfs (text "dev") ++ (normal (text "logs") ∷ []))
          (base_dir agentfs (text "test-2"))
        ≡ false)
env_dir-separate_example =
    env_dir-separate agentfs (text "dev") (text "test-2") (normal (text "logs") ∷ []) valid_dev
      valid_test

five_minutes :
    duration_limit whole_numbers (text "idle_timeout") (text "5m") ≡ ok (some 300000000000)
unfolding duration_limit text whole_numbers list_eq nat_eq is_unlimited to_ascii_lowercase trim
    split_number_unit is_empty span_until is_ascii_alphabetic all_chars contains
    validate_positive_decimal starts_with is_ascii_digit
five_minutes = refl

duration_limit-eq-some_example :
    (number unit : Text) × (x y : whole_numbers.F64) × (n : ℕ) × (trim (text "5m") ≡ number ++ unit)
    × (all_chars (λ c. not (is_ascii_alphabetic c)) number ≡ true)
    × (all_chars is_ascii_alphabetic unit ≡ true)
    × (whole_numbers.parse number ≡ some x)
    × (whole_numbers.le_zero x ≡ false)
    × Seconds whole_numbers x (to_ascii_lowercase unit) y
    × (whole_numbers.from_secs y ≡ some n)
    × (whole_numbers.from_std n ≡ some 300000000000)
duration_limit-eq-some_example =
    duration_limit-eq-some whole_numbers (text "idle_timeout") (text "5m") 300000000000 five_minutes

-- 2 ^ 64 seconds
abbrev too_long : Text
too_long = text "18446744073709551616s"

abbrev config : AgentConfig
config = new_config (path (text "/agentfs"))

config_ok : Config.validate whole_numbers config ≡ ok tt
unfolding Config.validate context validate_id is_valid_id is_empty new_config text bytes utf8
    is_ascii_alphanumeric all_chars Config.privileged_dev contains Limit.validate list_eq
    default_limits nat_eq validate_cpu_max is_unlimited whole_numbers to_ascii_lowercase
    is_ascii_alphabetic is_ascii_digit span_until starts_with strip_suffix trim split_number_unit
    validate_positive_decimal validate_size_limit validate_duration_limit duration_limit
    Policy.validate
config_ok = refl

validate-ok_example :
    All (IsProfile whole_numbers) config.profiles
    × Distinct (names_of config.profiles)
    × ((p : Profile) × (profile config config.default_profile ≡ some p)
        × (p.name ≡ config.default_profile)
        × IsProfile whole_numbers p)
validate-ok_example = validate-ok whole_numbers config config_ok
