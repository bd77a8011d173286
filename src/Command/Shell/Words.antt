-- ===== src/Command/Shell/Words.antt =====
-- How a shell cuts a line into words (POSIX XCU 2.2 and 2.3), as far as nothing is expanded: a character that
-- could start an expansion, a comment, an operator or a second line is refused unless it is quoted.
-- Double quotes are refused too. Reserved words and assignments are words like others.
use ipa_rs_agent_controller.Common.{
  ℕ, ◌≡◌, refl, sym, ap, ◌∙◌, Bool, true, false, ◌||◌, Option, none, some, List, [], ◌∷◌, ◌++◌, map,
  arith,
}
use ipa_rs_agent_controller.Common.{eqb, nat_eq, if◌then◌else◌, Bool-cases, inl, inr}
use ipa_rs_agent_controller.Common.Text.{
  Text, bytes, utf8, all_chars, is_empty, is_ascii_alphanumeric, join_with,
}
use ipa_rs_agent_controller.Common.Lists.{append_assoc, append-nil}
use ipa_rs_agent_controller.Command.Shell.{
  quote, escape_quotes, shell_quote, is_plain_byte, shell_arg, shell_join,
}

pub data Mode : Type 0 where
  plain quoted escaped : Mode

abbrev backslash : ℕ
backslash = b'\\'

unfoldable pub is_blank : ℕ → Bool
is_blank c = eqb c b' ' || eqb c b'\t'

-- A character with a meaning of its own for the shell, outside quotes; quotes and blanks stand apart.
unfoldable pub is_special : ℕ → Bool
is_special c =
    eqb c b'\n'
    || eqb c b'|'
    || eqb c b'&'
    || eqb c b';'
    || eqb c b'<'
    || eqb c b'>'
    || eqb c b'('
    || eqb c b')'
    || eqb c b'$'
    || eqb c b'`'
    || eqb c b'"'
    || eqb c b'*'
    || eqb c b'?'
    || eqb c b'['
    || eqb c b'#'
    || eqb c b'~'
    || eqb c b'{'
    || eqb c b'}'
    || eqb c b'!'

-- The word that is read, with one more character.
abbrev add : Option Text → ℕ → Option Text
add none c = some (c ∷ [])
add (some w) c = some (w ++ (c ∷ []))

-- A quotation begins a word, an empty one too.
abbrev begun : Option Text → Option Text
begun none = some []
begun (some w) = some w

abbrev finish : Option Text → Option (List Text) → Option (List Text)
finish none rest = rest
finish (some w) none = none
finish (some w) (some ws) = some (w ∷ ws)

-- The words of a line, where a word may have been begun.
unfoldable pub read : Mode → Option Text → Text → Option (List Text)
read plain word [] = finish word (some [])
read quoted word [] = none
read escaped word [] = none
read plain word (c ∷ s) =
    let ended = read plain none s in
    let in_quotes = read quoted (begun word) s in
    let in_escape = read escaped (begun word) s in
    let more = read plain (add word c) s in
    if is_blank c
    then finish word ended
    else if eqb c quote
    then in_quotes
    else if eqb c backslash
    then in_escape
    else if is_special c
    then none
    else more
read quoted word (c ∷ s) =
    let ended = read plain word s in
    let more = read quoted (add word c) s in if eqb c quote then ended else more
read escaped word (c ∷ s) = read plain (add word c) s

abbrev pub words : Text → Option (List Text)
words s = read plain none s

read-plain_char :
    (word : Option Text) (c : ℕ) (s : Text)
    → is_plain_byte c ≡ true
    → read plain word (c ∷ s) ≡ read plain (add word c) s
unfolding read is_plain_byte is_blank is_special is_ascii_alphanumeric
read-plain_char word c s h =
    let unblank : is_blank c ≡ false = ground arith in
    let unquote : eqb c quote ≡ false = ground arith in
    let unescape : eqb c backslash ≡ false = ground arith in
    let ordinary : is_special c ≡ false = ground arith in rw (unblank, unquote, unescape, ordinary)

abbrev add_all : Option Text → Text → Option Text
add_all word [] = word
add_all word (c ∷ v) = add_all (add word c) v

add_all-some : (w v : Text) → add_all (some w) v ≡ some (w ++ v)
add_all-some w [] = rw (append-nil w)
add_all-some w (c ∷ v) = rw (add_all-some (w ++ (c ∷ [])) v, append_assoc w (c ∷ []) v)

read-plain_text :
    (word : Option Text) (v s : Text)
    → all_chars is_plain_byte v ≡ true
    → read plain word (v ++ s) ≡ read plain (add_all word v) s
unfolding all_chars
read-plain_text word [] s h = refl
read-plain_text word (c ∷ v) s h =
    let rest = read-plain_text (add word c) v s (ground arith) in
    rw (read-plain_char word c (v ++ s) (ground arith)) rest

read-escape_quotes :
    (w v s : Text)
    → read quoted (some w) (escape_quotes v ++ (quote ∷ s)) ≡ read plain (some (w ++ v)) s
unfolding read escape_quotes is_blank
read-escape_quotes w [] s = rw (append-nil w)
read-escape_quotes w (c ∷ v) s = elim (Bool-cases (eqb c quote)) [
  | inl is_quote ↦
      let e : c ≡ quote = ground arith in
      rw (is_quote, e, sym (append_assoc w (quote ∷ []) v))
        (read-escape_quotes (w ++ (quote ∷ [])) v s)
  | inr no_quote ↦
      rw (no_quote, sym (append_assoc w (c ∷ []) v), no_quote)
        (read-escape_quotes (w ++ (c ∷ [])) v s)
]

utf8-plain :
    (c : ℕ) (bs : List ℕ)
    → all_chars is_plain_byte (utf8 c ++ bs) ≡ true
    → (is_plain_byte c ≡ true) × (utf8 c ≡ c ∷ []) × (all_chars is_plain_byte bs ≡ true)
unfolding utf8 all_chars is_plain_byte is_ascii_alphanumeric
utf8-plain c bs h = ground arith

bytes-plain :
    (v : Text) → all_chars is_plain_byte (bytes v) ≡ true → all_chars is_plain_byte v ≡ true
unfolding bytes all_chars
bytes-plain [] h = refl
bytes-plain (c ∷ v) h =
    let (first, one, rest) = utf8-plain c (bytes v) h in
    let ih = bytes-plain v rest in rw (first, ih)

add_all-none : (c : ℕ) (v : Text) → add_all none (c ∷ v) ≡ some (c ∷ v)
add_all-none c v = add_all-some (c ∷ []) v

read-shell_quote : (arg s : Text) → read plain none (shell_quote arg ++ s) ≡ read plain (some arg) s
unfolding shell_quote read is_blank
read-shell_quote arg s =
    rw (append_assoc (escape_quotes arg) (quote ∷ []) s) (read-escape_quotes [] arg s)

-- One argument, read where no word is begun.
read-shell_arg : (arg s : Text) → read plain none (shell_arg arg ++ s) ≡ read plain (some arg) s
unfolding shell_arg is_empty all_chars
read-shell_arg [] s = read-shell_quote [] s
read-shell_arg (c ∷ v) s = elim (Bool-cases (all_chars is_plain_byte (bytes (c ∷ v)))) [
  | inl is_plain ↦
      let read_it = read-plain_text none (c ∷ v) s (bytes-plain (c ∷ v) is_plain) in
      rw (is_plain) (rw (sym (add_all-none c v)) read_it)
  | inr other ↦ rw (other) (read-shell_quote (c ∷ v) s)
]

-- A shell reads the line that `shell_join` makes of a command as exactly the words of the command, whatever
-- characters they hold, and empty words too.
pub words-shell_join : (command : List Text) → words (shell_join command) ≡ some command
unfolding shell_join read is_blank join_with
words-shell_join [] = refl
words-shell_join (arg ∷ []) = rw (sym (append-nil (shell_arg arg))) (read-shell_arg arg [])
words-shell_join (arg ∷ next ∷ command) =
    let line = join_with (b' ' ∷ []) (map shell_arg (next ∷ command)) in
    let ih : read plain none line ≡ some (next ∷ command) = words-shell_join (next ∷ command) in
    read-shell_arg arg (b' ' ∷ line) ∙ ap (finish (some arg)) ih
