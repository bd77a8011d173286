-- ===== src/Command/Shell.antt =====
-- `shell_join` and `shell_quote` of crates/agent-core/src/command.rs.
pub mod Words
use ipa_rs_agent_controller.Common.{ℕ, Bool, true, false, ◌&&◌, ◌||◌, not, List, [], ◌∷◌, ◌++◌, map}
use ipa_rs_agent_controller.Common.{eqb, contains, nat_eq, if◌then◌else◌}
use ipa_rs_agent_controller.Common.Text.{
  Text, text, bytes, utf8, is_ascii_alphanumeric, is_empty, all_chars, join_with,
}

abbrev pub quote : ℕ
quote = b'\''

-- `value.replace('\'', "'\\''")`
unfoldable pub escape_quotes : Text → Text
escape_quotes [] = []
escape_quotes (c ∷ s) =
    let rest = escape_quotes s in
    if eqb c quote then quote ∷ b'\\' ∷ quote ∷ quote ∷ rest else c ∷ rest

unfoldable pub shell_quote : Text → Text
unfolding escape_quotes
shell_quote value = quote ∷ (escape_quotes value ++ (quote ∷ []))

unfoldable pub is_plain_byte : ℕ → Bool
is_plain_byte b =
    is_ascii_alphanumeric b
    || eqb b b'-'
    || eqb b b'_'
    || eqb b b'.'
    || eqb b b'/'
    || eqb b b':'
    || eqb b b'='
    || eqb b b'+'

unfoldable pub shell_arg : Text → Text
unfolding is_plain_byte shell_quote
shell_arg arg =
    if not (is_empty arg) && all_chars is_plain_byte (bytes arg) then arg else shell_quote arg

unfoldable pub shell_join : List Text → Text
unfolding shell_arg
shell_join command = join_with (b' ' ∷ []) (map shell_arg command)
