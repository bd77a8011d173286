-- ===== src/Host/Lawful.antt =====
-- What the controller relies on of the file system, for the contents of files: POSIX semantics where no
-- symbolic link and no hard link gives a file a second path.
use ipa_rs_agent_controller.Common.{◌≡◌, false, [], ◌++◌}
use ipa_rs_agent_controller.Common.Text.{Text}
use ipa_rs_agent_controller.Path.{FilePath}
use ipa_rs_agent_controller.Host.{
  Host, done, Change, create, write_all, rename, remove_file, remove_dir_all, touches,
}

-- The file at the path can be read, and has that content.
abbrev pub Reads : (H : Host) → H.State → FilePath → Text → Type 0
Reads H s p t = H.read_to_string s p ≡ done t

pub record Lawful (H : Host) : Type 0 where
  -- A call changes the content of no file that it does not touch.
  pub keeps :
      (c : Change) (s : H.State) (q : FilePath) (t : Text)
      → touches c q ≡ false
      → Reads H s q t
      → Reads H (H.perform c s).1 q t
  pub adds_nothing :
      (c : Change) (s : H.State) (q : FilePath) (t : Text)
      → touches c q ≡ false
      → Reads H (H.perform c s).1 q t
      → Reads H s q t
  pub created :
      (p : FilePath) (s : H.State)
      → (H.perform (create p) s).0 ≡ done tt
      → Reads H (H.perform (create p) s).1 p []
  pub written :
      (p : FilePath) (t u : Text) (s : H.State)
      → (H.perform (write_all p u) s).0 ≡ done tt
      → Reads H s p t
      → Reads H (H.perform (write_all p u) s).1 p (t ++ u)
  -- A rename is made as a whole or not at all.
  pub renamed :
      (a b : FilePath) (t : Text) (s : H.State)
      → (H.perform (rename a b) s).0 ≡ done tt
      → Reads H s a t
      → Reads H (H.perform (rename a b) s).1 b t
  pub not_renamed :
      (a b q : FilePath) (t : Text) (s : H.State)
      → ((H.perform (rename a b) s).0 ≡ done tt → ⊥)
      → Reads H (H.perform (rename a b) s).1 q t
      → Reads H s q t
  -- A removal changes no content that is left.
  pub removed :
      (p q : FilePath) (t : Text) (s : H.State)
      → Reads H (H.perform (remove_file p) s).1 q t
      → Reads H s q t
  pub removed_all :
      (p q : FilePath) (t : Text) (s : H.State)
      → Reads H (H.perform (remove_dir_all p) s).1 q t
      → Reads H s q t
