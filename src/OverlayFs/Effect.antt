-- ===== src/OverlayFs/Effect.antt =====
-- What the handlers of crates/agent-overlayfs/src/main.rs work on, and programs over it that answer an
-- error number. The locks are never poisoned, since a handler that panics ends the process.
use ipa_rs_agent_controller.Common.{
  ℕ, ◌+◌, ◌%◌, Option, none, some, List, [], ◌∷◌, Result, ok, err, panic, ◌==◌, nat_eq,
  if◌then◌else◌,
}
use ipa_rs_agent_controller.Common.Dict.{lookup}
use ipa_rs_agent_controller.Common.Text.{Text}
use ipa_rs_agent_controller.Path.{FilePath}
use ipa_rs_agent_controller.Host.{Host, Io, done, not_found, failed, OpenOptions, FileCall, close}
use ipa_rs_agent_controller.Host.Effect.{World, M}
use ipa_rs_agent_controller.Overlay.Paths.{PathOverlay}
use ipa_rs_agent_controller.OverlayFs.Fallback.{FallbackRoot}
use ipa_rs_agent_controller.OverlayFs.Inodes.{InodeTable, intern}

pub data Errno : Type 0 where
  eio enoent einval eexist enotempty enotdir no_xattr : Errno

-- The fields of `OverlayFs` that stay, and the user that the process runs as.
pub record View : Type 0 where
  pub overlay : PathOverlay
  pub fallback_roots : List FallbackRoot
  pub visible_root : FilePath
  pub uid : ℕ
  pub gid : ℕ

-- The fields that change, and the world. A file is its descriptor.
pub record Fs (H : Host) : Type 0 where
  pub world : World H
  pub paths : InodeTable
  pub files : List (ℕ × ℕ)
  pub next_fh : ℕ  -- AtomicU64

pub data Answer (A : Type 0) : Type 0 where
  answered : A → Answer A
  refused : Errno → Answer A
  crashed : Text → Answer A

abbrev pub F : Host → Type 0 → Type 0
F H A = Fs H → Answer A × Fs H

-- `map_err(|_| Errno::EIO)`
abbrev pub or_eio : {A : Type 0} → Result A → Answer A
or_eio (ok a) = answered a
or_eio (err e) = refused eio
or_eio (panic e) = crashed e

abbrev pub io_or_eio : {A : Type 0} → Io A → Answer A
io_or_eio (done a) = answered a
io_or_eio not_found = refused eio
io_or_eio (failed e) = refused eio

unfoldable pub without : ℕ → List (ℕ × ℕ) → List (ℕ × ℕ)
without fh [] = []
without fh ((g, fd) ∷ files) =
    let rest = without fh files in if g == fh then rest else (g, fd) ∷ rest

-- `.ok()`
ok_answer : {A : Type 0} → Answer A → Answer (Option A)
ok_answer (answered a) = answered (some a)
ok_answer (refused e) = answered none
ok_answer (crashed e) = crashed e

path_answer : Option FilePath → Answer FilePath
path_answer none = refused enoent
path_answer (some p) = answered p

module _ {H : Host} where
  abbrev continue : {A B : Type 0} → Answer A → (A → F H B) → F H B
  continue (answered a) f s = f a s
  continue (refused e) f s = (refused e, s)
  continue (crashed e) f s = (crashed e, s)

  unfoldable pub pure : {A : Type 0} → A → F H A
  pure a s = (answered a, s)

  unfoldable pub refuse : {A : Type 0} → Errno → F H A
  refuse e s = (refused e, s)

  unfoldable pub lift : {A : Type 0} → Answer A → F H A
  lift r s = (r, s)

  infixl 10 ◌>>=◌ ◌>>◌
  unfoldable pub ◌>>=◌ : {A B : Type 0} → F H A → (A → F H B) → F H B
  unfolding pure refuse lift
  ◌>>=◌ m f s = let (r, s') = m s in continue r f s'

  abbrev pub ◌>>◌ : {A B : Type 0} → F H A → F H B → F H B
  m >> n = m >>= λ _. n

  -- An action on the world with `map_err(|_| Errno::EIO)?`
  unfoldable pub try : {A : Type 0} → M H A → F H A
  try m s = let (r, w) = m s.world in (or_eio r, record s { world = w })

  unfoldable pub asks : {A : Type 0} → (H.State → A) → F H A
  asks f s = (answered (f s.world.os), s)

  abbrev handler_after : {A : Type 0} → F H (Unit {0}) → Answer A → F H A
  handler_after handler (answered a) = pure a
  handler_after handler (refused e) = handler >> refuse e
  handler_after handler (crashed e) = lift (crashed e)

  -- What is dropped where an error is returned.
  unfoldable pub on_refusal : {A : Type 0} → F H A → F H (Unit {0}) → F H A
  unfolding pure refuse lift
  on_refusal m handler s = let (r, s') = m s in handler_after handler r s'

  unfoldable pub attempt : {A : Type 0} → F H A → F H (Option A)
  unfolding ok_answer
  attempt m s = let (r, s') = m s in (ok_answer r, s')

  unfoldable pub for_each : {A : Type 0} → List A → (A → F H (Unit {0})) → F H (Unit {0})
  for_each [] f = pure tt
  for_each (a ∷ l) f = f a >> for_each l f

  unfoldable pub map_each : {A B : Type 0} → List A → (A → F H B) → F H (List B)
  map_each [] f = pure []
  map_each (a ∷ l) f = f a >>= λ b. map_each l f >>= λ bs. pure (b ∷ bs)

  -- A loop that changes a value.
  unfoldable pub fold_each : {A B : Type 0} → List A → B → (A → B → F H B) → F H B
  fold_each [] b f = pure b
  fold_each (a ∷ l) b f = f a b >>= λ c. fold_each l c f

  unfoldable pub open_io : OpenOptions → FilePath → F H ℕ
  open_io options path s =
      let (r, os) = H.open_file options path s.world.os in
      (io_or_eio r, record s { world = record s.world { os = os } })

  unfoldable pub file_io : FileCall → ℕ → F H (List ℕ)
  file_io call fd s =
      let (r, os) = H.file_call call fd s.world.os in
      (io_or_eio r, record s { world = record s.world { os = os } })

  -- The end of a `File`: an error of `close` is not seen.
  unfoldable pub drop_file : ℕ → F H (Unit {0})
  drop_file fd s =
      let (r, os) = H.file_call close fd s.world.os in
      (answered tt, record s { world = record s.world { os = os } })

  unfoldable pub ino_for_path : FilePath → F H ℕ
  ino_for_path path s =
      let (ino, table) = intern s.paths path in (answered ino, record s { paths = table })

  unfoldable pub drop_found : Option ℕ → F H (Unit {0})
  drop_found none = pure tt
  drop_found (some fd) = drop_file fd

  unfoldable pub set_file : ℕ → ℕ → F H (Unit {0})
  set_file fh fd s = (answered tt, record s { files = (fh, fd) ∷ without fh s.files })

  unfoldable pub unset_file : ℕ → F H (Unit {0})
  unset_file fh s = (answered tt, record s { files = without fh s.files })

  unfoldable pub file_of : ℕ → F H (Option ℕ)
  file_of fh s = (answered (lookup fh s.files), s)

  -- `files.insert(fh, file)`: a file that it replaces is dropped.
  unfoldable pub insert_file : ℕ → ℕ → F H (Unit {0})
  unfolding drop_found set_file without
  insert_file fh fd = file_of fh >>= λ old. set_file fh fd >> drop_found old

  -- `files.remove(&fh)`
  unfoldable pub remove_file_entry : ℕ → F H (Unit {0})
  unfolding drop_found unset_file without
  remove_file_entry fh = file_of fh >>= λ old. unset_file fh >> drop_found old

  -- `next_fh.fetch_add(1)`
  unfoldable pub fresh_fh : F H ℕ
  fresh_fh s = (answered s.next_fh, record s { next_fh = (s.next_fh + 1) % 18446744073709551616 })

  unfoldable pub path_for_ino : ℕ → F H FilePath
  unfolding path_answer
  path_for_ino ino s = (path_answer (lookup ino s.paths.by_ino), s)
