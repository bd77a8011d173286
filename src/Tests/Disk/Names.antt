-- ===== src/Tests/Disk/Names.antt =====
-- What a directory of the file system of the tests lists are names.
use ipa_rs_agent_controller.Common.{
  ◌≡◌, inl, inr, Bool, true, false, Option, none, some, List, [], ◌∷◌, arith, Bool-cases,
  if◌then◌else◌,
}
use ipa_rs_agent_controller.Common.Lists.{All}
use ipa_rs_agent_controller.Common.Text.{Text, is_empty}
use ipa_rs_agent_controller.Path.{FilePath, file_name}
use ipa_rs_agent_controller.Path.Laws.{IsName}
use ipa_rs_agent_controller.Host.{done}
use ipa_rs_agent_controller.Tests.Disk.{
  Node, absent, folder, device, file, link, Disk, disk, is_name, listed, name_in, node_list,
}

is_name-IsName : (n : Text) → is_name n ≡ true → IsName n
unfolding is_empty
is_name-IsName [] h = absurd (ground arith)
is_name-IsName (c ∷ s) h = record {
  slashless = ground arith;
  nonempty = λ e. absurd cc;
  not_dot = λ e. absurd (ground arith);
  not_dot_dot = λ e. absurd (ground arith);
}

if_names :
    (b : Bool) (n : Text) (l : List Text)
    → IsName n
    → All IsName l
    → All IsName (if b then n ∷ l else l)
if_names true n l h a = (h, a)
if_names false n l h a = a

name_in-names :
    (dir : FilePath) (s : Disk) (p : FilePath) (o : Option Text) (l : List Text)
    → All IsName l
    → All IsName (name_in dir s p o l)
unfolding name_in
name_in-names dir s p none l a = a
name_in-names dir s p (some n) l a = elim (Bool-cases (is_name n)) [
  | inl good ↦ if_names _ n l (is_name-IsName n good) a
  | inr bad ↦ rw bad a
]

listed-names : (dir : FilePath) (s : Disk) (paths : List FilePath) → All IsName (listed dir s paths)
unfolding listed
listed-names dir s [] = tt
listed-names dir s (p ∷ paths) =
    name_in-names dir s p (file_name p) (listed dir s paths) (listed-names dir s paths)

node_list-names :
    (p : FilePath) (n : Node) (s : Disk) (l : List Text) → node_list p n s ≡ done l → All IsName l
unfolding node_list
node_list-names p folder s l e =
    let same : l ≡ listed p s s.paths = ground arith in rw same (listed-names p s s.paths)
node_list-names p absent s l e = absurd cc
node_list-names p device s l e = absurd (ground arith)
node_list-names p (file b) s l e = absurd (ground arith)
node_list-names p (link t) s l e = absurd (ground arith)

pub disk-names :
    (s : disk.State) (p : FilePath) (l : List Text) → disk.read_dir s p ≡ done l → All IsName l
unfolding disk
disk-names s p l e = node_list-names p (s.node p) s l e
