-- ===== src/OverlayFs/Requests.antt =====
-- The requests of FUSE that crates/agent-overlayfs/src/main.rs handles, their replies, and what of a reply
-- is computed from values alone.
pub mod Pages
use ipa_rs_agent_controller.Common.{ℕ, suc, ◌+◌, Bool, Option, List, [], ◌∷◌, ◌++◌, if◌then◌else◌}
use ipa_rs_agent_controller.Common.Text.{Text, text, bytes}
use ipa_rs_agent_controller.Host.{FileType}
use ipa_rs_agent_controller.OverlayFs.Effect.{Errno}
use ipa_rs_agent_controller.OverlayFs.Attributes.{FileAttr}

-- The requests, with the arguments that the handlers use.
pub data Request : Type 0 where
  init : Request
  lookup : ℕ → Text → Request
  getattr : ℕ → Request
  setattr : ℕ → Option ℕ → Option ℕ → Request  -- mode and size
  readlink : ℕ → Request
  mkdir : ℕ → Text → ℕ → Request
  unlink : ℕ → Text → Request
  rmdir : ℕ → Text → Request
  symlink : ℕ → Text → Text → Request
  rename : ℕ → Text → ℕ → Text → Request
  open_path : ℕ → ℕ → Request
  access : ℕ → Request
  getxattr : Request
  listxattr : ℕ → Request
  setxattr : Request
  removexattr : Request
  create : ℕ → Text → ℕ → ℕ → Request  -- mode and flags
  read : ℕ → ℕ → ℕ → ℕ → Request  -- inode, handle, offset, size
  write : ℕ → ℕ → List ℕ → Request
  fsync : ℕ → Request
  release : ℕ → Request
  readdir : ℕ → ℕ → Request

pub record DirEntry : Type 0 where
  pub ino : ℕ
  pub offset : ℕ
  pub kind : FileType
  pub name : Text

pub data Reply : Type 0 where
  no_reply ok_reply : Reply
  entry attr : FileAttr → Reply
  bytes_reply : List ℕ → Reply
  opened : ℕ → Reply
  created : FileAttr → ℕ → Reply
  written : ℕ → Reply
  xattr_size : ℕ → Reply
  directory_reply : List DirEntry → Reply
  error : Errno → Reply
  crash : Text → Reply

-- `data.get(offset..end).unwrap_or_default()`
unfoldable pub slice : List ℕ → ℕ → ℕ → List ℕ
slice [] offset end = []
slice (b ∷ l) ℕ.zero ℕ.zero = []
slice (b ∷ l) ℕ.zero (suc end) = b ∷ slice l 0 end
slice (b ∷ l) (suc offset) ℕ.zero = []
slice (b ∷ l) (suc offset) (suc end) = slice l offset end

abbrev pub ready_data : List ℕ
ready_data = bytes (text "ready\n")

unfoldable pub drop {ℓ} : {A : Type ℓ} → List A → ℕ → List A
drop [] n = []
drop (x ∷ l) ℕ.zero = x ∷ l
drop (x ∷ l) (suc n) = drop l n

-- `reply.add` for each entry until it says that the buffer is full; `full` is asked with the entries that
-- the buffer has and the next one.
unfoldable pub fill :
    (List DirEntry → DirEntry → Bool) → List DirEntry → List DirEntry → List DirEntry
fill full got [] = got
fill full got (e ∷ entries) =
    let more = fill full (got ++ (e ∷ [])) entries in if full got e then got else more

unfoldable pub numbered : ℕ → List (ℕ × FileType × Text) → List DirEntry
numbered index [] = []
numbered index ((ino, kind, name) ∷ entries) =
    record { ino = ino; offset = index + 1; kind = kind; name = name }
    ∷ numbered (index + 1) entries
