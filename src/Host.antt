-- ===== src/Host.antt =====
-- What the controller calls and does not implement: the file system (`tokio::fs`, `std::fs`), the
-- programs that it runs, the clock, and serde_json for the metadata. All of it is the parameter `Host`.
-- Reading changes nothing, and nobody else changes the files between two calls.
pub mod Lawful
pub mod Triple
pub mod Steps
pub mod Effect
pub mod Log
pub mod Spared
pub mod Keeps
use ipa_rs_agent_controller.Common.{
  ℕ, Bool, true, false, ◌||◌, Option, none, some, List, Eq, ◌==◌, list_eq,
}
use ipa_rs_agent_controller.Common.{◌≡◌, Result, ok, err}
use ipa_rs_agent_controller.Common.Text.{Text, text}
use ipa_rs_agent_controller.Path.{FilePath, component_eq, path_starts_with}
use ipa_rs_agent_controller.Model.{Base, Env, Session}
use ipa_rs_agent_controller.Model.Limit.{Floats}

-- The result of a call of the system: `ErrorKind::NotFound` is told apart.
pub data Io (A : Type 0) : Type 0 where
  done : A → Io A
  not_found : Io A
  failed : Text → Io A

-- `?` on an `io::Result`
unfoldable pub io_result : {A : Type 0} → Io A → Result A
io_result (done a) = ok a
io_result not_found = err (text "No such file or directory (os error 2)")
io_result (failed e) = err e

pub data FileType : Type 0 where
  regular directory symlink other : FileType

filetype_dec : Discrete FileType
filetype_dec = hlevel

instance unfoldable pub filetype_eq : Eq FileType
unfolding filetype_dec
filetype_eq = record { dec = filetype_dec }

-- An `i64`; `negsuc n` is -(n + 1).
pub data ℤ : Type 0 where
  pos : ℕ → ℤ
  negsuc : ℕ → ℤ

-- Seconds and nanoseconds since 1970.
pub record Stamp : Type 0 where
  pub sec : ℤ
  pub nsec : ℤ

pub record Metadata : Type 0 where
  pub file_type : FileType
  pub mode : ℕ
  pub uid : ℕ
  pub gid : ℕ
  pub len : ℕ
  pub blocks : ℕ
  pub nlink : ℕ
  pub rdev : ℕ
  pub blksize : ℕ
  pub atime : Stamp
  pub mtime : Stamp
  pub ctime : Stamp

-- An exit status as Rust's `i32`.
pub data Status : Type 0 where
  nonneg : ℕ → Status
  minus : ℕ → Status  -- `minus n` is -(n + 1)

unfoldable pub is_success : Status → Bool
is_success (nonneg ℕ.zero) = true
is_success _ = false

pub record CmdOutput : Type 0 where
  pub status : Status
  pub stdout : Text
  pub stderr : Text

-- A call that may change files.
pub data Change : Type 0 where
  create_dir_all : FilePath → Change
  create : FilePath → Change  -- `File::create`, which truncates
  create_new : FilePath → Change
  open_append : FilePath → Change
  write_all : FilePath → Text → Change  -- at the end of the open file of that path
  sync_all : FilePath → Change
  open_dir : FilePath → Change
  rename : FilePath → FilePath → Change  -- of a file that is no directory
  reflink : FilePath → FilePath → Change  -- `platform_clone_file`
  remove_file : FilePath → Change
  remove_dir_all : FilePath → Change
  make_symlink : Text → FilePath → Change
  set_permissions : FilePath → ℕ → Change
  sleep : ℕ → Change
  rename_tree : FilePath → FilePath → Change  -- of a file or of a directory
  copy : FilePath → FilePath → Change
  remove_dir : FilePath → Change

-- Whether a call may change the content of the file at a path.
unfoldable pub touches : Change → FilePath → Bool
touches (create_dir_all p) q = false
touches (create p) q = q == p
touches (create_new p) q = q == p
touches (open_append p) q = q == p
touches (write_all p t) q = q == p
touches (sync_all p) q = false
touches (open_dir p) q = false
touches (rename a b) q = q == a || q == b
touches (reflink a b) q = q == b
touches (remove_file p) q = q == p
touches (remove_dir_all p) q = path_starts_with q p
touches (make_symlink t p) q = q == p
touches (set_permissions p m) q = false
touches (sleep ms) q = false
touches (rename_tree a b) q = path_starts_with q a || path_starts_with q b
touches (copy a b) q = q == b
touches (remove_dir p) q = path_starts_with q p

-- `std::fs::OpenOptions`
pub record OpenOptions : Type 0 where
  pub read : Bool
  pub write : Bool
  pub append : Bool
  pub truncate : Bool
  pub create : Bool
  pub mode : Option ℕ

-- A call on an open file.
pub data FileCall : Type 0 where
  seek : ℕ → FileCall  -- from the start
  read_some : ℕ → FileCall  -- one `read` into a buffer of that size
  write_bytes : List ℕ → FileCall  -- `write_all`
  sync_file : FileCall
  set_len : ℕ → FileCall
  close : FileCall

-- serde_json at one type.
pub record Codec (A : Type 0) : Type 0 where
  pub to_json : A → Text
  pub from_json : Text → Option A

pub record Host : Type 1 where
  pub State : Type 0
  pub read_to_string : State → FilePath → Io Text
  pub read : State → FilePath → Io (List ℕ)  -- the bytes
  pub metadata : State → FilePath → Io Metadata
  pub symlink_metadata : State → FilePath → Io Metadata
  pub read_dir : State → FilePath → Io (List Text)
  pub read_link : State → FilePath → Io Text
  -- The entries that `walkdir` finds below a directory, by their paths from it, parents first.
  pub walk_dir : State → FilePath → Io (List FilePath)
  pub canonicalize : State → FilePath → Io FilePath
  pub utc_now : State → ℕ
  pub to_rfc3339 : ℕ → Text
  pub process_id : ℕ
  pub perform : Change → State → Io (Unit {0}) × State
  -- The result is the descriptor.
  pub open_file : OpenOptions → FilePath → State → Io ℕ × State
  -- The bytes are those read.
  pub file_call : FileCall → ℕ → State → Io (List ℕ) × State
  pub run_program : Text → List Text → State → Io CmdOutput × State
  pub base_json : Codec Base
  pub env_json : Codec Env
  pub session_json : Codec Session
  pub floats : Floats
