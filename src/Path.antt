-- ===== src/Path.antt =====
-- `std::path` on Unix: a path is the sequence of its components, by which Rust compares paths.
-- Redundant separators and inner `.` components are already gone, so `display` shows none.
pub mod Laws
pub mod Prefix
use ipa_rs_agent_controller.Common.{Bool, true, false, Option, none, some, List, [], ◌∷◌, ◌++◌}
use ipa_rs_agent_controller.Common.{Eq, list_eq, nat_eq, eqb, ◌==◌, if◌then◌else◌}
use ipa_rs_agent_controller.Common.Text.{Text, text, split_on, join_with, starts_with}

-- `std::path::Component`, without the prefixes of Windows
pub data Component : Type 0 where
  root_dir cur_dir parent_dir : Component
  normal : Text → Component

text_dec : Discrete Text
unfolding list_eq nat_eq
text_dec = list_eq.dec

component_dec : Discrete Component
unfolding text_dec
component_dec = hlevel text_dec

instance unfoldable pub component_eq : Eq Component
unfolding component_dec text_dec
component_eq = record { dec = component_dec }

abbrev pub FilePath : Type 0
FilePath = List Component

abbrev pub dot : Text
dot = b'.' ∷ []

abbrev pub dot_dot : Text
dot_dot = b'.' ∷ b'.' ∷ []

-- An empty part and a `.` behind the first part are no component.
unfoldable pub component : Text → FilePath
component [] = []
component (c ∷ s) =
    if (c ∷ s) == dot
    then []
    else if (c ∷ s) == dot_dot
    then parent_dir ∷ []
    else normal (c ∷ s) ∷ []

unfoldable pub components_of : List Text → FilePath
unfolding component
components_of [] = []
components_of (w ∷ ws) = component w ++ components_of ws

unfoldable pub first_part : List Text → FilePath
first_part [] = []
first_part (w ∷ ws) = if w == dot then cur_dir ∷ [] else []

-- `Path::new(s).components()`
unfoldable pub path : Text → FilePath
unfolding first_part components_of
path [] = []
path (c ∷ s) =
    if eqb c b'/'
    then root_dir ∷ components_of (split_on b'/' s)
    else first_part (split_on b'/' (c ∷ s)) ++ components_of (split_on b'/' (c ∷ s))

unfoldable pub is_absolute : FilePath → Bool
is_absolute (root_dir ∷ p) = true
is_absolute _ = false

unfoldable pub drop_cur : FilePath → FilePath
drop_cur (cur_dir ∷ p) = p
drop_cur p = p

-- `p.join(q)`: an absolute `q` replaces `p`.
unfoldable pub join_path : FilePath → FilePath → FilePath
unfolding drop_cur
join_path [] q = q
join_path (c ∷ p) (root_dir ∷ q) = root_dir ∷ q
join_path (c ∷ p) q = c ∷ (p ++ drop_cur q)

-- `p.join(s)` for a text
infixl 66 ◌/◌
unfoldable pub ◌/◌ : FilePath → Text → FilePath
unfolding join_path path
p / s = join_path p (path s)

unfoldable pub file_name : FilePath → Option Text
file_name [] = none
file_name (normal s ∷ []) = some s
file_name (c ∷ []) = none
file_name (c ∷ d ∷ p) = file_name (d ∷ p)

-- All but the last component; `/` and the empty path have no parent.
unfoldable pub parent : FilePath → Option FilePath
parent [] = none
parent (root_dir ∷ []) = none
parent (c ∷ []) = some []
parent (c ∷ d ∷ p) = elim (parent (d ∷ p)) [ some q ↦ some (c ∷ q) | none ↦ some (c ∷ []) ]

-- `p.strip_prefix(q)`
unfoldable pub strip_path : FilePath → FilePath → Option FilePath
strip_path p [] = some p
strip_path [] (d ∷ q) = none
strip_path (c ∷ p) (d ∷ q) = let rest = strip_path p q in if c == d then rest else none

-- `p.starts_with(q)`
unfoldable pub path_starts_with : FilePath → FilePath → Bool
unfolding strip_path
path_starts_with p q = elim (strip_path p q) [ some r ↦ true | none ↦ false ]

-- `p.with_file_name(s)`: the last component is replaced if it is a name.
unfoldable pub with_file_name : FilePath → Text → FilePath
unfolding file_name parent ◌/◌
with_file_name p s = elim (file_name p) [
  | none ↦ p / s
  | some n ↦ elim (parent p) [ none ↦ path s | some q ↦ q / s ]
]

unfoldable pub part_text : Component → Text
part_text root_dir = []
part_text cur_dir = dot
part_text parent_dir = dot_dot
part_text (normal s) = s

part_texts : FilePath → List Text
part_texts [] = []
part_texts (c ∷ p) = part_text c ∷ part_texts p

-- `p.display()`
unfoldable pub display : FilePath → Text
unfolding part_text part_texts
display (root_dir ∷ []) = b'/' ∷ []
display p = join_with (b'/' ∷ []) (part_texts p)
