-- ===== src/Common/Text.antt =====
-- `str` and its methods. A text is the list of its characters, by their code points.
use Prim.Native.Nat.{ℕ, zero, suc, ◌+◌, ◌/◌, ◌%◌}
use Prim.Native.Char.{code}
use Prim.Native.String.{String}
use mathlib.Core.Bool.{Bool, true, false, ◌&&◌, ◌||◌}
use mathlib.Core.Option.{Option, none, some}
use mathlib.Core.List.{List, [], ◌∷◌, ◌++◌, map, reverse}
use ipa_rs_agent_controller.Common.Tests.{ltb, leb, eqb, if◌then◌else◌}

abbrev pub Text : Type 0
Text = List ℕ

unfoldable pub text : String → Text
text String.[] = []
text (String.◌∷◌ c s) = code c ∷ text s

unfoldable pub is_ascii_digit : ℕ → Bool
is_ascii_digit c = leb b'0' c && leb c b'9'

unfoldable pub is_ascii_alphabetic : ℕ → Bool
is_ascii_alphabetic c = (leb b'a' c && leb c b'z') || (leb b'A' c && leb c b'Z')

unfoldable pub is_ascii_alphanumeric : ℕ → Bool
unfolding is_ascii_digit is_ascii_alphabetic
is_ascii_alphanumeric c = is_ascii_digit c || is_ascii_alphabetic c

-- `u8::to_ascii_lowercase`
unfoldable pub lower : ℕ → ℕ
lower c = if leb b'A' c && leb c b'Z' then c + 32 else c

unfoldable pub to_ascii_lowercase : Text → Text
unfolding lower
to_ascii_lowercase = map lower

-- `char::is_whitespace`: the code points with the property White_Space.
unfoldable pub is_whitespace : ℕ → Bool
is_whitespace c =
    (leb 9 c && leb c 13)
    || eqb c 32
    || eqb c 0x85
    || eqb c 0xa0
    || eqb c 0x1680
    || (leb 0x2000 c && leb c 0x200a)
    || eqb c 0x2028
    || eqb c 0x2029
    || eqb c 0x202f
    || eqb c 0x205f
    || eqb c 0x3000

unfoldable pub trim_start : Text → Text
unfolding is_whitespace
trim_start [] = []
trim_start (c ∷ s) = let rest = trim_start s in if is_whitespace c then rest else c ∷ s

unfoldable pub trim_end : Text → Text
unfolding trim_start
trim_end s = reverse (trim_start (reverse s))

unfoldable pub trim : Text → Text
unfolding trim_start trim_end
trim s = trim_end (trim_start s)

unfoldable pub is_empty {ℓ} : {A : Type ℓ} → List A → Bool
is_empty [] = true
is_empty (x ∷ xs) = false

unfoldable pub all_chars {ℓ} : {A : Type ℓ} → (A → Bool) → List A → Bool
all_chars p [] = true
all_chars p (c ∷ s) = p c && all_chars p s

-- `s.strip_prefix(p)`
unfoldable pub strip_prefix : Text → Text → Option Text
strip_prefix s [] = some s
strip_prefix [] (d ∷ p) = none
strip_prefix (c ∷ s) (d ∷ p) = let rest = strip_prefix s p in if eqb c d then rest else none

unfoldable pub starts_with : Text → Text → Bool
unfolding strip_prefix
starts_with s p = elim (strip_prefix s p) [ some rest ↦ true | none ↦ false ]

unfoldable pub strip_suffix : Text → Text → Option Text
unfolding strip_prefix
strip_suffix s p = elim (strip_prefix (reverse s) (reverse p)) [
  | some r ↦ some (reverse r)
  | none ↦ none
]

-- `s.contains(p)` for a text `p`
unfoldable pub contains_str : Text → Text → Bool
unfolding starts_with is_empty
contains_str [] p = is_empty p
contains_str (c ∷ s) p = starts_with (c ∷ s) p || contains_str s p

-- `s.rfind(p)`, as the part before the last occurrence and the part after it.
unfoldable pub rsplit_once : Text → Text → Option (Text × Text)
unfolding strip_prefix
rsplit_once [] p = elim (strip_prefix [] p) [ some r ↦ some ([], r) | none ↦ none ]
rsplit_once (c ∷ s) p = elim (rsplit_once s p) [
  | some (a, b) ↦ some (c ∷ a, b)
  | none ↦ elim (strip_prefix (c ∷ s) p) [ some r ↦ some ([], r) | none ↦ none ]
]

-- The text up to the first character that satisfies the test, and the text from it on.
unfoldable pub span_until : (ℕ → Bool) → Text → Text × Text
span_until p [] = ([], [])
span_until p (c ∷ s) =
    let rest = span_until p s in if p c then ([], c ∷ s) else (c ∷ rest.0, rest.1)

-- `s.split(sep)` for a character `sep`
unfoldable pub split_on : ℕ → Text → List Text
split_on sep [] = [] ∷ []
split_on sep (c ∷ s) = elim (split_on sep s) [
  | [] ↦ (c ∷ []) ∷ []
  | w ∷ ws ↦ if eqb c sep then [] ∷ w ∷ ws else (c ∷ w) ∷ ws
]

-- `parts.join(sep)`
unfoldable pub join_with : Text → List Text → Text
join_with sep [] = []
join_with sep (w ∷ []) = w
join_with sep (w ∷ v ∷ ws) = w ++ (sep ++ join_with sep (v ∷ ws))

drop_empty_last : List Text → List Text
drop_empty_last [] = []
drop_empty_last ([] ∷ []) = []
drop_empty_last (w ∷ ws) = w ∷ drop_empty_last ws

drop_cr : Text → Text
drop_cr [] = []
drop_cr (c ∷ []) = if eqb c 13 then [] else c ∷ []
drop_cr (c ∷ d ∷ s) = c ∷ drop_cr (d ∷ s)

-- `s.lines()`
unfoldable pub lines : Text → List Text
unfolding split_on drop_empty_last drop_cr
lines s = map drop_cr (drop_empty_last (split_on b'\n' s))

drop_empty : List Text → List Text
drop_empty [] = []
drop_empty ([] ∷ ws) = drop_empty ws
drop_empty ((c ∷ w) ∷ ws) = (c ∷ w) ∷ drop_empty ws

split_ws : Text → List Text
split_ws [] = [] ∷ []
split_ws (c ∷ s) = elim (split_ws s) [
  | [] ↦ (c ∷ []) ∷ []
  | w ∷ ws ↦ if is_whitespace c then [] ∷ w ∷ ws else (c ∷ w) ∷ ws
]

-- `s.split_whitespace()`
unfoldable pub split_whitespace : Text → List Text
unfolding split_ws drop_empty is_whitespace
split_whitespace s = drop_empty (split_ws s)

-- The UTF-8 bytes of one character.
unfoldable pub utf8 : ℕ → List ℕ
utf8 c =
    if ltb c 0x80
    then c ∷ []
    else if ltb c 0x800
    then (0xc0 + c / 64) ∷ (0x80 + c % 64) ∷ []
    else if ltb c 0x10000
    then (0xe0 + c / 4096) ∷ (0x80 + c / 64 % 64) ∷ (0x80 + c % 64) ∷ []
    else (0xf0 + c / 262144) ∷ (0x80 + c / 4096 % 64) ∷ (0x80 + c / 64 % 64) ∷ (0x80 + c % 64) ∷ []

-- `s.bytes()`
unfoldable pub bytes : Text → List ℕ
unfolding utf8
bytes [] = []
bytes (c ∷ s) = utf8 c ++ bytes s

unfoldable pub show_digits : ℕ → ℕ → Text
show_digits zero n = []
show_digits (suc fuel) n =
    let rest = show_digits fuel (n / 10) in
    if ltb n 10 then (b'0' + n) ∷ [] else rest ++ ((b'0' + n % 10) ∷ [])

-- `{n}` of a number: it has at most `n + 1` digits.
unfoldable pub show : ℕ → Text
unfolding show_digits
show n = show_digits (suc n) n
