-- ===== src/Model/Limit.antt =====
-- `impl Limits` and the parsers of limits in crates/agent-core/src/model.rs.
-- `f64` and the durations are the parameter `Floats`.
pub mod Durations
use ipa_rs_agent_controller.Common.{
  ℕ, Bool, true, false, ◌&&◌, ◌||◌, not, Option, none, some, List, [],
}
use ipa_rs_agent_controller.Common.{◌∷◌, ◌++◌, Result, ok, err, panic, ◌>>=◌, ◌>>◌, ensure, ok_or}
use ipa_rs_agent_controller.Common.{◌==◌, contains, list_eq, nat_eq, if◌then◌else◌}
use ipa_rs_agent_controller.Common.Text.{
  Text, text, trim, to_ascii_lowercase, is_ascii_alphabetic, is_empty, all_chars, span_until,
  strip_suffix, starts_with,
}
use ipa_rs_agent_controller.Model.{Limits, LimitOverrides}

-- What the code uses of `f64`, `std::time::Duration` and `chrono::Duration`.
pub record Floats : Type 1 where
  pub F64 : Type 0
  -- `value.parse::<f64>()`
  pub parse : Text → Option F64
  -- `number <= 0.0`
  pub le_zero : F64 → Bool
  -- `value * k` for a whole constant `k`
  pub times : F64 → ℕ → F64
  -- `StdDuration::from_secs_f64`, in nanoseconds; `none` is its panic
  pub from_secs : F64 → Option ℕ
  -- `Duration::from_std`
  pub from_std : ℕ → Option ℕ

unfoldable pub is_unlimited : Text → Bool
is_unlimited value =
    let word = to_ascii_lowercase (trim value) in
    word == text "0" || word == text "unlimited" || word == text "infinity" || word == text "none"

-- The number is what stands before the first ASCII letter, and the rest is the unit.
unfoldable pub split_number_unit : Text → Option (Text × Text)
split_number_unit value =
    let (number, unit) = span_until is_ascii_alphabetic value in
    if is_empty number || is_empty unit || not (all_chars is_ascii_alphabetic unit)
    then none
    else some (number, unit)

abbrev pub size_units : List Text
size_units =
    text "b"
    ∷ text "k"
    ∷ text "kb"
    ∷ text "m"
    ∷ text "mb"
    ∷ text "g"
    ∷ text "gb"
    ∷ text "t"
    ∷ text "tb"
    ∷ []

abbrev pub duration_units : List Text
duration_units =
    text "s"
    ∷ text "sec"
    ∷ text "m"
    ∷ text "min"
    ∷ text "h"
    ∷ text "hr"
    ∷ text "d"
    ∷ text "day"
    ∷ []

-- `if let Some(value) = o { field = value; }`
abbrev pub set_if {ℓ} : {A : Type ℓ} → Option A → A → A
set_if none old = old
set_if (some new) old = new

unfoldable pub with_overrides : Limits → LimitOverrides → Limits
with_overrides l o = record {
  cpu_max = set_if o.cpu_max l.cpu_max;
  memory_max = set_if o.memory_max l.memory_max;
  pids_max = set_if o.pids_max l.pids_max;
  disk_max = set_if o.disk_max l.disk_max;
  network = set_if o.network l.network;
  idle_timeout = set_if o.idle_timeout l.idle_timeout;
  max_runtime = set_if o.max_runtime l.max_runtime;
}

unfoldable pub network_uses_bridge : Limits → Bool
network_uses_bridge l = l.network == text "bridge"

unfoldable pub network_is_disabled : Limits → Bool
network_is_disabled l = l.network == text "none"

module _ (F : Floats) where
  open F use {F64, parse, le_zero, times, from_secs, from_std}

  -- `value.parse::<f64>().map_or(true, |number| number <= 0.0)`
  not_positive : Option F64 → Bool
  not_positive none = true
  not_positive (some x) = le_zero x

  unfoldable pub validate_positive_decimal : Text → Text → Result (Unit {0})
  unfolding not_positive
  validate_positive_decimal name value =
      ensure (not (is_empty value || starts_with value (text "-") || not_positive (parse value)))
        (name ++ text " must be positive")

  unfoldable pub validate_cpu_max : Text → Result (Unit {0})
  validate_cpu_max value =
      let word = trim value in
      if is_unlimited word then ok tt else elim (strip_suffix word (text "%")) [
        | none ↦ err (text "cpu_max must be a positive percentage or 0/unlimited")
        | some percent ↦ validate_positive_decimal (text "cpu_max") percent
      ]

  unfoldable pub validate_size_limit : Text → Text → Result (Unit {0})
  validate_size_limit name value =
      let word = trim value in
      if is_unlimited word then ok tt else elim (split_number_unit word) [
        | none ↦ err (name ++ text " must be a positive size with a unit or 0/unlimited")
        | some (number, unit) ↦
            ensure (contains size_units (to_ascii_lowercase unit))
              (name ++ (text " has unsupported unit " ++ unit))
            >> validate_positive_decimal name number
      ]

  -- The match on the unit; its last arm is `unreachable!`.
  unit_seconds : Text → F64 → Result F64
  unit_seconds unit value =
      if unit == text "s" || unit == text "sec"
      then ok value
      else if unit == text "m" || unit == text "min"
      then ok (times value 60)
      else if unit == text "h" || unit == text "hr"
      then ok (times (times value 60) 60)
      else if unit == text "d" || unit == text "day"
      then ok (times (times (times value 60) 60) 24)
      else panic (text "duration unit was validated above")

  abbrev from_secs_f64 : F64 → Result ℕ
  from_secs_f64 seconds = elim (from_secs seconds) [
    | some d ↦ ok d
    | none ↦ panic (text "Duration::from_secs_f64")
  ]

  -- The duration of a number with a unit.
  duration_of : Text → Text → Text → Result (Option ℕ)
  unfolding unit_seconds
  duration_of name number unit = do
    ensure (contains duration_units (to_ascii_lowercase unit))
        (name ++ (text " has unsupported unit " ++ unit))
    validate_positive_decimal name number
    value ← ok_or (name ++ text " must be positive") (parse number)
    seconds ← unit_seconds (to_ascii_lowercase unit) value
    duration ← from_secs_f64 seconds
    d ← ok_or (name ++ text " duration is too large") (from_std duration)
    ok (some d)

  -- `none` is no limit.
  unfoldable pub duration_limit : Text → Text → Result (Option ℕ)
  unfolding duration_of
  duration_limit name value =
      let word = trim value in
      if is_unlimited word then ok none else elim (split_number_unit word) [
        | none ↦ err (name ++ text " must be a positive duration with a unit or 0/unlimited")
        | some (number, unit) ↦ duration_of name number unit
      ]

  unfoldable pub validate_duration_limit : Text → Text → Result (Unit {0})
  unfolding duration_limit
  validate_duration_limit name value = duration_limit name value >> ok tt

  unfoldable pub validate : Limits → Result (Unit {0})
  validate l = do
    ensure (contains (text "host" ∷ text "bridge" ∷ text "none" ∷ []) l.network)
        (text "unsupported network mode " ++ (l.network ++ text "; use host, bridge, or none"))
    validate_cpu_max l.cpu_max
    validate_size_limit (text "memory_max") l.memory_max
    validate_size_limit (text "disk_max") l.disk_max
    validate_duration_limit (text "idle_timeout") l.idle_timeout
    validate_duration_limit (text "max_runtime") l.max_runtime
    ok tt

  unfoldable pub idle_timeout_duration : Limits → Result (Option ℕ)
  idle_timeout_duration l = duration_limit (text "idle_timeout") l.idle_timeout
