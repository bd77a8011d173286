-- ===== src/OverlayFs/Keeps/Os.antt =====
-- Conditions on the host alone, which the calls of the host keep or not.
use ipa_rs_agent_controller.Common.{ℕ, Option, none, some}
use ipa_rs_agent_controller.Path.{FilePath}
use ipa_rs_agent_controller.Host.{Host, FileCall, close}
use ipa_rs_agent_controller.Host.Effect.{M}
use ipa_rs_agent_controller.Host.Keeps.{Keeps as Kept}
use ipa_rs_agent_controller.OverlayFs.Effect.{
  Fs, try, file_io, drop_file, ino_for_path, drop_found, set_file, unset_file, file_of, insert_file,
  remove_file_entry, fresh_fh,
}
use ipa_rs_agent_controller.OverlayFs.Keeps.{
  Keeps, Keeps-pure, Keeps-bind, Keeps-file_of, action_rules,
}

-- The condition holds of the host of the state.
pub record OnOs {H : Host} (P : H.State → Type 0) (s : Fs H) : Type 0 where
  pub os : P s.world.os

module _ {H : Host} {P : H.State → Type 0} where
  pub Keeps-try : {A : Type 0} (m : M H A) → Kept {H = H} (λ w. P w.os) m → Keeps H (OnOs P) (try m)
  unfolding try
  Keeps-try m k = record { at = λ s h. record { os = k.at s.world h.os } }

  pub Keeps-ino_for_path : (p : FilePath) → Keeps H (OnOs P) (ino_for_path p)
  unfolding ino_for_path
  Keeps-ino_for_path p = record { at = λ s h. record { os = h.os } }

  pub Keeps-fresh_fh : Keeps H (OnOs P) fresh_fh
  unfolding fresh_fh
  Keeps-fresh_fh = record { at = λ s h. record { os = h.os } }

  -- Calls on open files, where each keeps the condition.
  module _ (calls : (c : FileCall) (fd : ℕ) (s : H.State) → P s → P (H.file_call c fd s).1) where
    pub Keeps-file_io : (c : FileCall) (fd : ℕ) → Keeps H (OnOs P) (file_io c fd)
    unfolding file_io
    Keeps-file_io c fd = record { at = λ s h. record { os = calls c fd s.world.os h.os } }

    pub Keeps-drop_file : (fd : ℕ) → Keeps H (OnOs P) (drop_file fd)
    unfolding drop_file
    Keeps-drop_file fd = record { at = λ s h. record { os = calls close fd s.world.os h.os } }

    drop_found-Keeps : (o : Option ℕ) → Keeps H (OnOs P) (drop_found o)
    unfolding drop_found
    drop_found-Keeps none = Keeps-pure tt
    drop_found-Keeps (some fd) = Keeps-drop_file fd

    set_file-Keeps : (fh fd : ℕ) → Keeps H (OnOs P) (set_file fh fd)
    unfolding set_file
    set_file-Keeps fh fd = record { at = λ s h. record { os = h.os } }

    unset_file-Keeps : (fh : ℕ) → Keeps H (OnOs P) (unset_file fh)
    unfolding unset_file
    unset_file-Keeps fh = record { at = λ s h. record { os = h.os } }

    pub Keeps-insert_file : (fh fd : ℕ) → Keeps H (OnOs P) (insert_file fh fd)
    unfolding insert_file
    Keeps-insert_file fh fd =
        Keeps-bind (file_of fh) _ (Keeps-file_of fh)
          λ old. Keeps-bind (set_file fh fd) _ (set_file-Keeps fh fd) λ _. drop_found-Keeps old

    pub Keeps-remove_file_entry : (fh : ℕ) → Keeps H (OnOs P) (remove_file_entry fh)
    unfolding remove_file_entry
    Keeps-remove_file_entry fh =
        Keeps-bind (file_of fh) _ (Keeps-file_of fh)
          λ old. Keeps-bind (unset_file fh) _ (unset_file-Keeps fh) λ _. drop_found-Keeps old

pub ruleset fs_rules = (action_rules, Keeps-ino_for_path, Keeps-fresh_fh)
