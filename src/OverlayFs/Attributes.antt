-- ===== src/OverlayFs/Attributes.antt =====
-- The attributes of files, the flags of `open` and the copy of a file into the upper layer, of
-- crates/agent-overlayfs/src/main.rs. A time is nanoseconds since 1970; fuser knows every type of file.
use ipa_rs_agent_controller.Common.{
  ℕ, ◌+◌, ◌*◌, ◌/◌, ◌%◌, Bool, true, false, not, ◌||◌, Option, none, some, eqb,
}
use ipa_rs_agent_controller.Common.Text.{Text}
use ipa_rs_agent_controller.Path.{FilePath, parent}
use ipa_rs_agent_controller.Host.{
  Host, ℤ, pos, negsuc, Stamp, Metadata, FileType, regular, directory, symlink, other, OpenOptions,
  create_dir_all, make_symlink, copy, set_permissions,
}
use ipa_rs_agent_controller.Host.Effect.{M, pure, ◌>>=◌, ◌>>◌, read, perform}

pub record FileAttr : Type 0 where
  pub ino : ℕ
  pub size : ℕ
  pub blocks : ℕ
  pub atime : ℕ
  pub mtime : ℕ
  pub ctime : ℕ
  pub crtime : ℕ
  pub kind : FileType
  pub perm : ℕ
  pub nlink : ℕ
  pub uid : ℕ
  pub gid : ℕ
  pub rdev : ℕ
  pub blksize : ℕ
  pub flags : ℕ

-- `nsec.max(0) as u32`
nanos : ℤ → ℕ
nanos (pos n) = n % 4294967296
nanos (negsuc n) = 0

time_from : ℤ → ℕ → ℕ
time_from (pos sec) nsec = 1000000000 * sec + nsec
time_from (negsuc n) nsec = 0

unfoldable pub unix_time : Stamp → ℕ
unfolding nanos time_from
unix_time t = time_from t.sec (nanos t.nsec)

unfoldable pub attr_of : ℕ → Metadata → FileAttr
attr_of ino m = record {
  ino = ino;
  size = m.len;
  blocks = m.blocks;
  atime = unix_time m.atime;
  mtime = unix_time m.mtime;
  ctime = unix_time m.ctime;
  crtime = 0;
  kind = m.file_type;
  perm = m.mode % 4096;
  nlink = m.nlink % 4294967296;
  uid = m.uid;
  gid = m.gid;
  rdev = m.rdev % 4294967296;
  blksize = m.blksize % 4294967296;
  flags = 0;
}

unfoldable pub dir_attr : ℕ → ℕ → ℕ → ℕ → FileAttr
dir_attr now uid gid ino = record {
  ino = ino;
  size = 0;
  blocks = 0;
  atime = now;
  mtime = now;
  ctime = now;
  crtime = now;
  kind = directory;
  perm = 0o755;
  nlink = 2;
  uid = uid;
  gid = gid;
  rdev = 0;
  blksize = 4096;
  flags = 0;
}

unfoldable pub virtual_ready_attr : ℕ → ℕ → ℕ → ℕ → FileAttr
virtual_ready_attr now uid gid ino = record {
  ino = ino;
  size = 6;
  blocks = 1;
  atime = now;
  mtime = now;
  ctime = now;
  crtime = now;
  kind = regular;
  perm = 0o444;
  nlink = 1;
  uid = uid;
  gid = gid;
  rdev = 0;
  blksize = 4096;
  flags = 0;
}

-- A flag that is one bit.
abbrev has_bit : ℕ → ℕ → Bool
has_bit flags bit = not (eqb (flags / bit % 2) 0)

-- The values of macOS: O_ACCMODE 3, O_WRONLY 1, O_RDWR 2, O_APPEND 8, O_TRUNC 0x400.
unfoldable pub open_flags_write : ℕ → Bool
open_flags_write flags =
    eqb (flags % 4) 1 || eqb (flags % 4) 2 || has_bit flags 0x400 || has_bit flags 8

unfoldable pub open_options : ℕ → Bool → OpenOptions
open_options flags write = record {
  read = not write || eqb (flags % 4) 2;
  write = write;
  append = has_bit flags 8;
  truncate = has_bit flags 0x400;
  create = false;
  mode = none;
}

-- The options of the handler `create`.
unfoldable pub create_options : ℕ → ℕ → OpenOptions
create_options mode flags = record {
  read = true;
  write = true;
  append = false;
  truncate = has_bit flags 0x400;
  create = true;
  mode = some (mode % 4096);
}

module _ {H : Host} where
  unfoldable pub make_parent : Option FilePath → M H (Unit {0})
  make_parent none = pure tt
  make_parent (some dir) = perform (create_dir_all dir)

  unfoldable pub link_to : FilePath → Text → M H (Unit {0})
  link_to dst target = perform (make_symlink target dst)

  unfoldable pub copy_plain : FilePath → FilePath → ℕ → M H (Unit {0})
  unfolding make_parent
  copy_plain src dst mode = do
    make_parent (parent dst)
    perform (copy src dst)
    perform (set_permissions dst (mode % 4096))

  unfoldable pub copy_node : FilePath → FilePath → ℕ → FileType → M H (Unit {0})
  unfolding make_parent link_to copy_plain
  copy_node src dst mode directory = perform (create_dir_all dst)
  copy_node src dst mode symlink = do
    make_parent (parent dst)
    target ← read (λ s. H.read_link s src)
    link_to dst target
  copy_node src dst mode regular = copy_plain src dst mode
  copy_node src dst mode other = copy_plain src dst mode

  unfoldable pub copy_up : FilePath → FilePath → M H (Unit {0})
  unfolding copy_node
  copy_up src dst = do
    m ← read (λ s. H.symlink_metadata s src)
    copy_node src dst m.mode m.file_type
