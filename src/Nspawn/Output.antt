-- ===== src/Nspawn/Output.antt =====
-- Reading what machinectl and systemctl print: crates/agent-core/src/nspawn.rs.
pub mod Marker
use Prim.Native.Nat.{◌-◌}
use ipa_rs_agent_controller.Common.{
  ℕ, zero, suc, ◌+◌, ◌*◌, Bool, true, false, ◌&&◌, ◌||◌, Option, none, some,
}
use ipa_rs_agent_controller.Common.{List, [], ◌∷◌, ◌++◌, Result, ok, err}
use ipa_rs_agent_controller.Common.{◌==◌, list_eq, nat_eq, ltb, leb, eqb, if◌then◌else◌}
use ipa_rs_agent_controller.Common.Text.{
  Text, text, trim, to_ascii_lowercase, contains_str, rsplit_once, span_until, is_ascii_digit,
}
use ipa_rs_agent_controller.Host.{Status, nonneg, minus, is_success}
use ipa_rs_agent_controller.Model.{EnvState}
use ipa_rs_agent_controller.Command.{exited_with}

abbrev says : Text → Text → Bool
says stderr phrase = contains_str (to_ascii_lowercase stderr) phrase

unfoldable pub machinectl_reports_missing_machine : Text → Bool
machinectl_reports_missing_machine stderr =
    says stderr (text "no machine")
    || says stderr (text "not exist")
    || says stderr (text "not found")

unfoldable pub systemctl_reports_missing_unit : Text → Bool
systemctl_reports_missing_unit stderr =
    says stderr (text "not loaded")
    || says stderr (text "could not be found")
    || says stderr (text "not found")
    || says stderr (text "does not exist")

unfoldable pub machinectl_show_state_result : Status → Text → Text → Text → Result EnvState
machinectl_show_state_result status stdout stderr machine_name =
    if is_success status
    then ok (if trim stdout == text "running" then EnvState.running else EnvState.stopped)
    else if machinectl_reports_missing_machine stderr
    then ok EnvState.stopped
    else err (
        text "machinectl show "
        ++ (machine_name
            ++ exited_with (record { status = status; stdout = stdout; stderr = stderr })))

-- The digits of `parse::<i32>()`, below the bound; an overflow is an error.
i32_digits : ℕ → ℕ → Text → Option ℕ
i32_digits bound acc [] = some acc
i32_digits bound acc (c ∷ s) =
    let next = 10 * acc + (c - b'0') in
    let rest = i32_digits bound next s in if is_ascii_digit c && ltb next bound then rest else none

to_minus : Option ℕ → Option Status
to_minus none = none
to_minus (some zero) = some (nonneg 0)
to_minus (some (suc n)) = some (minus n)

to_nonneg : Option ℕ → Option Status
to_nonneg none = none
to_nonneg (some n) = some (nonneg n)

-- `s.parse::<i32>()`: a sign needs a digit behind it.
unfoldable pub parse_i32 : Text → Option Status
unfolding i32_digits to_minus to_nonneg
parse_i32 [] = none
parse_i32 (c ∷ []) = to_nonneg (i32_digits 2147483648 0 (c ∷ []))
parse_i32 (c ∷ d ∷ s) =
    if eqb c b'-'
    then to_minus (i32_digits 2147483649 0 (d ∷ s))
    else if eqb c b'+'
    then to_nonneg (i32_digits 2147483648 0 (d ∷ s))
    else to_nonneg (i32_digits 2147483648 0 (c ∷ d ∷ s))

unfoldable pub marker : Text
marker = text "\n__AGENT_FORKD_EXIT:"

-- The status behind the last marker, and the output before it.
unfoldable pub parse_child_exit_status : Text → Option (Status × Text)
unfolding marker
parse_child_exit_status stdout = elim (rsplit_once stdout marker) [
  | none ↦ none
  | some (before, after) ↦ elim (parse_i32 (trim (span_until (λ c. eqb c b'\n') after).0)) [
    | none ↦ none
    | some status ↦ some (status, before)
  ]
]
