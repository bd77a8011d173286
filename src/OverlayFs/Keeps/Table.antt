-- ===== src/OverlayFs/Keeps/Table.antt =====
-- Inodes that stay with their paths: every action but `ino_for_path` leaves the table alone.
use ipa_rs_agent_controller.Common.{ℕ, Option, none, some}
use ipa_rs_agent_controller.Path.{FilePath}
use ipa_rs_agent_controller.Host.{Host, FileCall, OpenOptions}
use ipa_rs_agent_controller.Host.Effect.{M}
use ipa_rs_agent_controller.OverlayFs.Inodes.{InodeTable}
use ipa_rs_agent_controller.OverlayFs.Inodes.Inverse.{Grown, grown_trans, intern-Grown}
use ipa_rs_agent_controller.OverlayFs.Effect.{
  Fs, F, try, open_io, file_io, drop_file, ino_for_path, drop_found, set_file, unset_file,
  insert_file, remove_file_entry, fresh_fh,
}
use ipa_rs_agent_controller.OverlayFs.Keeps.{Keeps, Keeps-pure, action_rules}

-- The inodes of a table are still those of the state.
pub record GrownFrom {H : Host} (t : InodeTable) (s : Fs H) : Type 0 where
  pub grown : Grown t s.paths

module _ {H : Host} (t : InodeTable) where
  abbrev Grows : {A : Type 0} → F H A → Type 0
  Grows m = Keeps H (GrownFrom t) m

  pub Grows-ino_for_path : (p : FilePath) → Grows (ino_for_path p)
  unfolding ino_for_path
  Grows-ino_for_path p = record {
    at = λ s g. record { grown = grown_trans t s.paths _ g.grown (intern-Grown s.paths p) };
  }

  pub Grows-try : {A : Type 0} (m : M H A) → Grows (try m)
  unfolding try
  Grows-try m = record { at = λ s g. record { grown = g.grown } }

  pub Grows-open_io : (o : OpenOptions) (p : FilePath) → Grows (open_io o p)
  unfolding open_io
  Grows-open_io o p = record { at = λ s g. record { grown = g.grown } }

  pub Grows-file_io : (c : FileCall) (fd : ℕ) → Grows (file_io c fd)
  unfolding file_io
  Grows-file_io c fd = record { at = λ s g. record { grown = g.grown } }

  pub Grows-drop_file : (fd : ℕ) → Grows (drop_file fd)
  unfolding drop_file
  Grows-drop_file fd = record { at = λ s g. record { grown = g.grown } }

  pub Grows-fresh_fh : Grows fresh_fh
  unfolding fresh_fh
  Grows-fresh_fh = record { at = λ s g. record { grown = g.grown } }

  drop_found-Grows : (o : Option ℕ) → Grows (drop_found o)
  unfolding drop_found
  drop_found-Grows none = Keeps-pure tt
  drop_found-Grows (some fd) = Grows-drop_file fd

  set_file-Grows : (fh fd : ℕ) → Grows (set_file fh fd)
  unfolding set_file
  set_file-Grows fh fd = record { at = λ s g. record { grown = g.grown } }

  unset_file-Grows : (fh : ℕ) → Grows (unset_file fh)
  unfolding unset_file
  unset_file-Grows fh = record { at = λ s g. record { grown = g.grown } }

  pub Grows-insert_file : (fh fd : ℕ) → Grows (insert_file fh fd)
  unfolding insert_file
  Grows-insert_file fh fd = search (action_rules, set_file-Grows, drop_found-Grows)

  pub Grows-remove_file_entry : (fh : ℕ) → Grows (remove_file_entry fh)
  unfolding remove_file_entry
  Grows-remove_file_entry fh = search (action_rules, unset_file-Grows, drop_found-Grows)

pub ruleset table_rules = (
  action_rules, Grows-ino_for_path, Grows-try, Grows-open_io, Grows-file_io, Grows-drop_file,
  Grows-fresh_fh, Grows-insert_file, Grows-remove_file_entry,
)
