-- ===== src/Btrfs/Quota.antt =====
-- The table of `btrfs qgroup show`: crates/agent-core/src/btrfs.rs.
use Prim.Native.Nat.{◌-◌}
use ipa_rs_agent_controller.Common.{
  ℕ, zero, suc, ◌+◌, ◌*◌, Bool, false, ◌&&◌, ◌||◌, Option, none, some,
}
use ipa_rs_agent_controller.Common.{List, [], ◌∷◌, ◌++◌, Result, ok, err}
use ipa_rs_agent_controller.Common.{◌==◌, list_eq, nat_eq, ltb, leb, eqb, if◌then◌else◌}
use ipa_rs_agent_controller.Common.Text.{Text, text, lines, split_whitespace, is_ascii_digit}
use ipa_rs_agent_controller.Path.{FilePath, display}
use ipa_rs_agent_controller.Host.{Status, is_success}

abbrev get_elem? {ℓ} : {A : Type ℓ} → List A → ℕ → Option A
get_elem? [] i = none
get_elem? (x ∷ xs) zero = some x
get_elem? (x ∷ xs) (suc i) = get_elem? xs i

-- `headers.iter().position(|h| *h == name)`
unfoldable pub position : Text → List Text → Option ℕ
position name [] = none
position name (h ∷ hs) =
    let rest : Option ℕ = elim (position name hs) [ some i ↦ some (suc i) | none ↦ none ] in
    if h == name then some 0 else rest

-- The digits of `value.parse::<u128>()` after the optional `+`; a value of 2^128 or more is an error.
parse_digits : ℕ → Text → Option ℕ
parse_digits acc [] = some acc
parse_digits acc (c ∷ s) =
    let next = 10 * acc + (c - b'0') in
    let rest = parse_digits next s in
    if is_ascii_digit c && ltb next 340282366920938463463374607431768211456 then rest else none

unfoldable pub parse_u128 : Text → Option ℕ
unfolding parse_digits
parse_u128 [] = none
parse_u128 (c ∷ []) = parse_digits 0 (c ∷ [])
parse_u128 (c ∷ d ∷ s) = if eqb c b'+' then parse_digits 0 (d ∷ s) else parse_digits 0 (c ∷ d ∷ s)

abbrev value_at : List Text → ℕ → ℕ
value_at fields i = elim (get_elem? fields i) [
  | none ↦ 0
  | some v ↦ elim (parse_u128 v) [ some n ↦ n | none ↦ 0 ]
]

-- One row: a row that is too short for a column is passed over.
unfoldable pub row_exceeded : ℕ → ℕ → List Text → Bool
row_exceeded rfer max_rfer fields = elim (get_elem? fields rfer) [
  | none ↦ false
  | some _ ↦ elim (get_elem? fields max_rfer) [
    | none ↦ false
    | some _ ↦
        ltb 0 (value_at fields max_rfer) && leb (value_at fields max_rfer) (value_at fields rfer)
  ]
]

rows_exceeded : ℕ → ℕ → List Text → Bool
rows_exceeded rfer max_rfer [] = false
rows_exceeded rfer max_rfer (line ∷ rest) =
    row_exceeded rfer max_rfer (split_whitespace line) || rows_exceeded rfer max_rfer rest

-- `lines.skip(1)` after the header: the row of dashes
skip_one : List Text → List Text
skip_one [] = []
skip_one (l ∷ ls) = ls

unfoldable pub table_exceeded : List Text → Bool
unfolding rows_exceeded skip_one
table_exceeded [] = false
table_exceeded (header ∷ rest) = elim (position (text "rfer") (split_whitespace header)) [
  | none ↦ false
  | some rfer ↦ elim (position (text "max_rfer") (split_whitespace header)) [
    | none ↦ false
    | some max_rfer ↦ rows_exceeded rfer max_rfer (skip_one rest)
  ]
]

unfoldable pub qgroup_show_reports_exceeded : Text → Bool
unfolding table_exceeded
qgroup_show_reports_exceeded output = table_exceeded (lines output)

unfoldable pub qgroup_show_result : Status → Text → Text → FilePath → Result Bool
qgroup_show_result status stdout stderr path =
    if is_success status
    then ok (qgroup_show_reports_exceeded stdout)
    else err (
        text "failed to inspect Btrfs qgroup quota for "
        ++ (display path ++ (text ": " ++ (stdout ++ stderr))))
