-- ===== src/Host/Spared.antt =====
-- Calls that spare a directory.
use ipa_rs_agent_controller.Common.{
  ℕ, ◌≡◌, refl, ap, ◌∙◌, ◌⊎◌, inl, inr, true, false, some, [], ◌∷◌, ◌++◌, arith, Bool-cases,
}
use ipa_rs_agent_controller.Common.Lists.{All, append_assoc, append-nil}
use ipa_rs_agent_controller.Common.Text.{Text}
use ipa_rs_agent_controller.Path.{FilePath, normal, ◌/◌, path_starts_with, parent}
use ipa_rs_agent_controller.Path.Laws.{IsName, append_name}
use ipa_rs_agent_controller.Path.Prefix.{
  path_starts_with-append, path_starts_with-eq-true, apart-append, parent-eq-some,
}
use ipa_rs_agent_controller.Host.{
  Host, done, other, Change, create_dir_all, create, write_all, remove_file, make_symlink,
  set_permissions, rename_tree, copy, remove_dir, OpenOptions, FileCall,
}
use ipa_rs_agent_controller.Host.Effect.{perform, perform_io}
use ipa_rs_agent_controller.Host.Keeps.{Keeps}
use ipa_rs_agent_controller.Host.Log.{Log, Call, changed, opened, ran, kind, alters, reads_only}

-- Neither of the two paths begins with the other.
pub record Away (dir p : FilePath) : Type 0 where
  pub outside : path_starts_with p dir ≡ false
  pub not_above : path_starts_with dir p ≡ false

pub Away-append : (dir p r : FilePath) → Away dir p → Away dir (p ++ r)
Away-append dir p r a = record {
  outside = rw (← append-nil dir) (apart-append p dir r [] a.outside a.not_above);
  not_above = rw (← append-nil dir) (apart-append dir p [] r a.not_above a.outside);
}

pub Away-join : (dir p : FilePath) (name : Text) → IsName name → Away dir p → Away dir (p / name)
Away-join dir p name n a = rw (append_name p name n) (Away-append dir p (normal name ∷ []) a)

-- The call alters nothing in the directory.
pub record Quiet (dir : FilePath) (c : Change) : Type 0 where
  pub at : (q : FilePath) → path_starts_with q dir ≡ true → alters c q ≡ false

module _ (dir : FilePath) where
  pub Away-below :
      (p q : FilePath) → Away dir p → path_starts_with q dir ≡ true → path_starts_with q p ≡ false
  Away-below p q a h =
      let (r, e) = path_starts_with-eq-true q dir h in
      rw (e, ← append-nil p) (apart-append dir p r [] a.not_above a.outside)

  Away-above :
      (p q : FilePath) → Away dir p → path_starts_with q dir ≡ true → path_starts_with p q ≡ false
  Away-above p q a h =
      let (r, e) = path_starts_with-eq-true q dir h in
      rw (e, ← append-nil p) (apart-append p dir [] r a.outside a.not_above)

  pub Quiet-create_dir_all : (p : FilePath) → Away dir p → Quiet dir (create_dir_all p)
  unfolding alters
  Quiet-create_dir_all p a = record { at = λ q h. Away-above p q a h }

  pub Quiet-create : (p : FilePath) → Away dir p → Quiet dir (create p)
  unfolding alters
  Quiet-create p a = record { at = λ q h. Away-below p q a h }

  pub Quiet-write_all : (p : FilePath) (t : Text) → Away dir p → Quiet dir (write_all p t)
  unfolding alters
  Quiet-write_all p t a = record { at = λ q h. Away-below p q a h }

  pub Quiet-remove_file : (p : FilePath) → Away dir p → Quiet dir (remove_file p)
  unfolding alters
  Quiet-remove_file p a = record { at = λ q h. Away-below p q a h }

  pub Quiet-remove_dir : (p : FilePath) → Away dir p → Quiet dir (remove_dir p)
  unfolding alters
  Quiet-remove_dir p a = record { at = λ q h. Away-below p q a h }

  pub Quiet-make_symlink : (t : Text) (p : FilePath) → Away dir p → Quiet dir (make_symlink t p)
  unfolding alters
  Quiet-make_symlink t p a = record { at = λ q h. Away-below p q a h }

  pub Quiet-set_permissions : (p : FilePath) (m : ℕ) → Away dir p → Quiet dir (set_permissions p m)
  unfolding alters
  Quiet-set_permissions p m a = record { at = λ q h. Away-below p q a h }

  pub Quiet-copy : (a b : FilePath) → Away dir b → Quiet dir (copy a b)
  unfolding alters
  Quiet-copy a b w = record { at = λ q h. Away-below b q w h }

  pub Quiet-rename_tree : (a b : FilePath) → Away dir a → Away dir b → Quiet dir (rename_tree a b)
  unfolding alters
  Quiet-rename_tree a b u w = record { at = λ q h. rw (Away-below a q u h, Away-below b q w h) }

  parent-above :
      (p q d : FilePath)
      → Away dir p
      → parent p ≡ some d
      → path_starts_with q dir ≡ true
      → path_starts_with d q ≡ false
  parent-above p q d a e h = elim (Bool-cases (path_starts_with d q)) [
    | inr below ↦ below
    | inl under ↦
        let (c, last) = parent-eq-some p d e in
        let (r, split) = path_starts_with-eq-true d q under in
        let whole : p ≡ q ++ (r ++ (c ∷ [])) =
          last ∙ ap (λ x. x ++ (c ∷ [])) split ∙ append_assoc q r (c ∷ []) in
        let again : path_starts_with p q ≡ true =
          rw whole (path_starts_with-append q (r ++ (c ∷ []))) in
        absurd (ground (arith, Away-above p q a h))
  ]

  -- The directory above a path that is away, made where it is missing.
  pub Quiet-create_parent :
      (p d : FilePath) → Away dir p → parent p ≡ some d → Quiet dir (create_dir_all d)
  unfolding alters
  Quiet-create_parent p d a e = record { at = λ q h. parent-above p q d a e h }

-- A call that names no path of the directory where it can change it: neither a path in the directory nor
-- one above it, but that the directory itself may be made where it is missing. A file that is opened to look
-- at it, or that is a device, may lie anywhere; no program is run.
unfoldable pub Spares : FilePath → Call → Type 0
Spares dir (changed c) = Quiet dir c ⊎ (c ≡ create_dir_all dir)
Spares dir (opened o p k) = (reads_only o ≡ true) ⊎ Away dir p ⊎ (k ≡ done other)
Spares dir (ran program args) = ⊥

-- Every call so far is such a call.
pub record Spared {H : Host} (log : Log H) (dir : FilePath) (s : H.State) : Type 0 where
  pub every : All (Spares dir) (log.calls s)

module _ {H : Host} (log : Log H) (dir : FilePath) where
  pub Keeps-perform :
      (c : Change) → Quiet dir c → Keeps {H = H} (λ w. Spared log dir w.os) (perform c)
  unfolding perform perform_io Spares
  Keeps-perform c quiet = record {
    at = λ w u. record { every = rw (log.after_perform c w.os) (inl quiet, u.every) };
  }

  pub Keeps-make_dir : Keeps {H = H} (λ w. Spared log dir w.os) (perform (create_dir_all dir))
  unfolding perform perform_io Spares
  Keeps-make_dir = record {
    at = λ w u. record { every = rw (log.after_perform _ w.os) (inr refl, u.every) };
  }

  pub open_file-Spared :
      (o : OpenOptions) (p : FilePath) (s : H.State)
      → (reads_only o ≡ true) ⊎ Away dir p ⊎ (kind H s p ≡ done other)
      → Spared log dir s
      → Spared log dir (H.open_file o p s).1
  unfolding Spares
  open_file-Spared o p s allowed u = record { every = rw (log.after_open o p s) (allowed, u.every) }

  pub file_call-Spared :
      (c : FileCall) (fd : ℕ) (s : H.State)
      → Spared log dir s
      → Spared log dir (H.file_call c fd s).1
  file_call-Spared c fd s u = record { every = rw (log.after_call c fd s) u.every }
