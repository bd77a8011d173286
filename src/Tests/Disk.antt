-- ===== src/Tests/Disk.antt =====
-- A file system with directories, links, devices and open files; a path names what stands at it.
pub mod Names
use ipa_rs_agent_controller.Common.{
  ℕ, ◌+◌, ◌≡◌, refl, Bool, true, false, not, ◌&&◌, Option, none, some, List, [], ◌∷◌, ◌++◌, ◌==◌,
  list_eq, nat_eq, option_eq, if◌then◌else◌,
}
use ipa_rs_agent_controller.Common.Text.{Text, text, bytes, all_chars, is_empty}
use ipa_rs_agent_controller.Common.Lists.{length}
use ipa_rs_agent_controller.Path.{
  FilePath, component_eq, path_starts_with, file_name, parent, dot, dot_dot,
}
use ipa_rs_agent_controller.Path.Laws.{no_slash}
use ipa_rs_agent_controller.Host.{
  Host, Io, done, not_found, failed, Metadata, FileType, nonneg, Change, create_dir_all, create,
  create_new, open_append, write_all, rename, reflink, remove_file, remove_dir_all, make_symlink,
  rename_tree, copy, remove_dir, OpenOptions, FileCall, read_some, write_bytes, set_len, close,
}
use ipa_rs_agent_controller.Host.Log.{reads_only}
use ipa_rs_agent_controller.Tests.Machine.{whole_numbers, epoch, no_json}

pub data Node : Type 0 where
  absent folder device : Node
  file : List ℕ → Node
  link : Text → Node

pub record Disk : Type 0 where
  pub node : FilePath → Node
  pub paths : List FilePath  -- those that a directory can list
  pub files : ℕ → Option (FilePath × Bool)  -- open files, and whether they are writable
  pub next : ℕ

abbrev pub put : FilePath → Node → Disk → Disk
put p n s = record s { node = λ q. if q == p then n else s.node q; paths = p ∷ s.paths }

is_absent : Node → Bool
is_absent absent = true
is_absent _ = false

abbrev pub is_name : Text → Bool
is_name s = no_slash s && (not (is_empty s) && (not (s == dot) && not (s == dot_dot)))

name_in : FilePath → Disk → FilePath → Option Text → List Text → List Text
unfolding is_absent
name_in dir s p none names = names
name_in dir s p (some n) names =
    if is_name n && (not (is_absent (s.node p)) && (parent p == some dir)) then n ∷ names else names

-- The names of the files in a directory.
unfoldable pub listed : FilePath → Disk → List FilePath → List Text
unfolding name_in
listed dir s [] = []
listed dir s (p ∷ paths) = name_in dir s p (file_name p) (listed dir s paths)

no_file : Text
no_file = text "not a plain file"

unfoldable pub made_empty : FilePath → Node → Disk → Io (Unit {0}) × Disk
unfolding no_file
made_empty p absent s = (done tt, put p (file []) s)
made_empty p (file b) s = (done tt, put p (file []) s)
made_empty p _ s = (failed no_file, s)

unfoldable pub grown : FilePath → Text → Node → Disk → Io (Unit {0}) × Disk
unfolding no_file
grown p t (file b) s = (done tt, put p (file (b ++ bytes t)) s)
grown p t _ s = (failed no_file, s)

unfoldable pub moved_node : FilePath → FilePath → Node → Disk → Io (Unit {0}) × Disk
unfolding no_file
moved_node a b absent s = (not_found, s)
moved_node a b folder s = (failed no_file, s)
moved_node a b n s = (done tt, put b n (put a absent s))

unfoldable pub copied_node : FilePath → Node → Disk → Io (Unit {0}) × Disk
unfolding no_file
copied_node b absent s = (not_found, s)
copied_node b (file c) s = (done tt, put b (file c) s)
copied_node b _ s = (failed no_file, s)

unfoldable pub removed_node : FilePath → Node → Disk → Io (Unit {0}) × Disk
unfolding no_file
removed_node p absent s = (not_found, s)
removed_node p folder s = (failed no_file, s)
removed_node p _ s = (done tt, put p absent s)

removed_empty : FilePath → List Text → Disk → Io (Unit {0}) × Disk
removed_empty p [] s = (done tt, put p absent s)
removed_empty p (n ∷ names) s = (failed (text "not empty"), s)

unfoldable pub removed_folder : FilePath → Node → Disk → Io (Unit {0}) × Disk
unfolding no_file removed_empty
removed_folder p folder s = removed_empty p (listed p s s.paths) s
removed_folder p _ s = (failed no_file, s)

unfoldable pub linked : FilePath → Text → Node → Disk → Io (Unit {0}) × Disk
unfolding no_file
linked p t absent s = (done tt, put p (link t) s)
linked p t _ s = (failed no_file, s)

unfoldable pub or_folder : Node → Node
or_folder absent = folder
or_folder n = n

unfoldable pub perform_on : Change → Disk → Io (Unit {0}) × Disk
unfolding made_empty grown moved_node copied_node removed_node removed_folder linked or_folder
perform_on (create_dir_all p) s = (
  done tt,
  record s {
    node = λ q. if path_starts_with p q then or_folder (s.node q) else s.node q;
    paths = p ∷ s.paths;
  },
)
perform_on (create p) s = made_empty p (s.node p) s
perform_on (create_new p) s = made_empty p (s.node p) s
perform_on (write_all p t) s = grown p t (s.node p) s
perform_on (rename a b) s = moved_node a b (s.node a) s
perform_on (rename_tree a b) s = moved_node a b (s.node a) s
perform_on (reflink a b) s = copied_node b (s.node a) s
perform_on (copy a b) s = copied_node b (s.node a) s
perform_on (remove_file p) s = removed_node p (s.node p) s
perform_on (remove_dir p) s = removed_folder p (s.node p) s
perform_on (remove_dir_all p) s =
    (done tt, record s { node = λ q. if path_starts_with q p then absent else s.node q })
perform_on (make_symlink t p) s = linked p t (s.node p) s
perform_on _ s = (done tt, s)

metadata_as : FileType → ℕ → Metadata
metadata_as t len = record {
  file_type = t;
  mode = 0o644;
  uid = 0;
  gid = 0;
  len = len;
  blocks = 1;
  nlink = 1;
  rdev = 0;
  blksize = 4096;
  atime = epoch;
  mtime = epoch;
  ctime = epoch;
}

unfoldable pub node_metadata : Node → Io Metadata
unfolding metadata_as
node_metadata absent = not_found
node_metadata folder = done (metadata_as FileType.directory 64)
node_metadata device = done (metadata_as FileType.other 0)
node_metadata (file b) = done (metadata_as FileType.regular (length b))
node_metadata (link t) = done (metadata_as FileType.symlink (length t))

-- Links lead nowhere.
unfoldable pub node_followed : Node → Io Metadata
node_followed (link t) = not_found
node_followed n = node_metadata n

unfoldable pub node_bytes : Node → Io (List ℕ)
unfolding no_file
node_bytes absent = not_found
node_bytes (file b) = done b
node_bytes _ = failed no_file

unfoldable pub node_target : Node → Io Text
unfolding no_file
node_target absent = not_found
node_target (link t) = done t
node_target _ = failed no_file

node_list : FilePath → Node → Disk → Io (List Text)
unfolding no_file
node_list p absent s = not_found
node_list p folder s = done (listed p s s.paths)
node_list p _ s = failed no_file

abbrev pub opened_at : FilePath → Bool → Disk → Io ℕ × Disk
opened_at p writable s = (
  done s.next,
  record s {
    files = λ g. if g == s.next then some (p, writable) else s.files g;
    next = s.next + 1;
  },
)

unfoldable pub open_node : OpenOptions → FilePath → Node → Disk → Io ℕ × Disk
unfolding no_file
open_node o p absent s = if o.create then opened_at p true (put p (file []) s) else (not_found, s)
open_node o p (file b) s =
    if reads_only o
    then opened_at p false s
    else opened_at p true (if o.truncate then put p (file []) s else s)
open_node o p device s = opened_at p false s
open_node o p _ s = (failed no_file, s)

cut : ℕ → List ℕ → List ℕ
cut ℕ.zero b = []
cut (ℕ.suc n) [] = 0 ∷ cut n []
cut (ℕ.suc n) (x ∷ b) = x ∷ cut n b

-- What a write through a descriptor does to the file.
write_node : FilePath → Bool → (List ℕ → List ℕ) → Node → Disk → Io (List ℕ) × Disk
unfolding no_file
write_node p true change (file b) s = (done [], put p (file (change b)) s)
write_node p _ change n s = (failed no_file, s)

unfoldable pub call_on : FileCall → ℕ → Option (FilePath × Bool) → Disk → Io (List ℕ) × Disk
unfolding no_file write_node cut
call_on c fd none s = (failed no_file, s)
call_on (read_some n) fd (some (p, w)) s = (node_bytes (s.node p), s)
call_on (write_bytes l) fd (some (p, w)) s = write_node p w (λ b. b ++ l) (s.node p) s
call_on (set_len n) fd (some (p, w)) s = write_node p w (cut n) (s.node p) s
call_on close fd (some (p, w)) s =
    (done [], record s { files = λ g. if g == fd then none else s.files g })
call_on _ fd (some (p, w)) s = (done [], s)

unfoldable pub disk : Host
unfolding perform_on node_metadata node_followed node_bytes node_target node_list open_node call_on
disk = record {
  State = Disk;
  read_to_string = λ s p. failed no_file;
  read = λ s p. node_bytes (s.node p);
  metadata = λ s p. node_followed (s.node p);
  symlink_metadata = λ s p. node_metadata (s.node p);
  read_dir = λ s p. node_list p (s.node p) s;
  read_link = λ s p. node_target (s.node p);
  walk_dir = λ s p. done [];
  canonicalize = λ s p. done p;
  utc_now = λ s. 7;
  to_rfc3339 = λ n. text "now";
  process_id = 42;
  perform = perform_on;
  open_file = λ o p s. open_node o p (s.node p) s;
  file_call = λ c fd s. call_on c fd (s.files fd) s;
  run_program = λ program args s. (failed no_file, s);
  base_json = no_json;
  env_json = no_json;
  session_json = no_json;
  floats = whole_numbers;
}
