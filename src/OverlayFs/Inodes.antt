-- ===== src/OverlayFs/Inodes.antt =====
-- The numbers of paths: `InodeTable` of crates/agent-overlayfs/src/main.rs.
pub mod Inverse
pub mod Stable
pub mod Storage
use ipa_rs_agent_controller.Common.{
  ℕ, ◌+◌, ◌%◌, Option, none, some, List, [], ◌∷◌, ◌==◌, list_eq, nat_eq, ltb, if◌then◌else◌,
}
use ipa_rs_agent_controller.Common.Dict.{lookup}
use ipa_rs_agent_controller.Path.{FilePath, component_eq}
use ipa_rs_agent_controller.OverlayFs.Fallback.{root}

abbrev pub root_ino : ℕ
root_ino = 1

pub record InodeTable : Type 0 where
  pub next : ℕ  -- u64
  pub by_path : List (FilePath × ℕ)
  pub by_ino : List (ℕ × FilePath)

-- `InodeTable::default()`
abbrev pub empty_table : InodeTable
empty_table = record { next = 0; by_path = []; by_ino = [] }

abbrev max : ℕ → ℕ → ℕ
max a b = if ltb a b then b else a

unfoldable pub add_path : InodeTable → FilePath → ℕ → ℕ → InodeTable
add_path t path ino next = record {
  next = next;
  by_path = (path, ino) ∷ t.by_path;
  by_ino = (ino, path) ∷ t.by_ino;
}

unfoldable pub add_new : InodeTable → FilePath → ℕ × InodeTable
unfolding add_path
add_new t path = if path == root then (root_ino, add_path t path root_ino t.next) else (
  max t.next (root_ino + 1),
  add_path t path (max t.next (root_ino + 1))
      ((max t.next (root_ino + 1) + 1) % 18446744073709551616),
)

unfoldable pub intern : InodeTable → FilePath → ℕ × InodeTable
intern t path = elim (lookup path t.by_path) [ some ino ↦ (ino, t) | none ↦ add_new t path ]

unfoldable pub path_of : InodeTable → ℕ → Option FilePath
path_of t ino = lookup ino t.by_ino
