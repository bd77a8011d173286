-- ===== src/Host/Log.antt =====
-- A host that writes down every call that can change a file. What a call does to the files stays open: a
-- statement on the calls holds also where a link leads from a path of one directory into another.
use ipa_rs_agent_controller.Common.{ℕ, ◌≡◌, refl, Bool, true, false, ◌||◌, List, ◌∷◌}
use ipa_rs_agent_controller.Common.Lists.{All}
use ipa_rs_agent_controller.Common.Text.{Text}
use ipa_rs_agent_controller.Path.{FilePath, path_starts_with}
use ipa_rs_agent_controller.Path.Laws.{IsName}
use ipa_rs_agent_controller.Host.{
  Host, Io, done, not_found, failed, Metadata, FileType, Change, create_dir_all, create, create_new,
  open_append, write_all, sync_all, open_dir, rename, reflink, remove_file, remove_dir_all,
  make_symlink, set_permissions, sleep, rename_tree, copy, remove_dir, OpenOptions, FileCall,
}

unfoldable pub type_only : Io Metadata → Io FileType
type_only (done m) = done m.file_type
type_only not_found = not_found
type_only (failed e) = failed e

-- What stands at a path.
unfoldable pub kind : (H : Host) → H.State → FilePath → Io FileType
unfolding type_only
kind H s p = type_only (H.symlink_metadata s p)

-- Whether a call that names these paths, none of them a link, may alter what a path shows.
unfoldable pub alters : Change → FilePath → Bool
alters (create_dir_all p) q = path_starts_with p q
alters (create p) q = path_starts_with q p
alters (create_new p) q = path_starts_with q p
alters (open_append p) q = path_starts_with q p
alters (write_all p t) q = path_starts_with q p
alters (sync_all p) q = false
alters (open_dir p) q = false
alters (rename a b) q = path_starts_with q a || path_starts_with q b
alters (reflink a b) q = path_starts_with q b
alters (remove_file p) q = path_starts_with q p
alters (remove_dir_all p) q = path_starts_with q p
alters (make_symlink t p) q = path_starts_with q p
alters (set_permissions p m) q = path_starts_with q p
alters (sleep ms) q = false
alters (rename_tree a b) q = path_starts_with q a || path_starts_with q b
alters (copy a b) q = path_starts_with q b
alters (remove_dir p) q = path_starts_with q p

-- Opened to look at the file and no more.
abbrev pub reads_only : OpenOptions → Bool
reads_only o = elim (o.write || o.append || (o.truncate || o.create)) [
  | true ↦ false
  | false ↦ true
]

-- A call that can change a file, or that opens one through which it can be changed.
pub data Call : Type 0 where
  changed : Change → Call
  opened : OpenOptions → FilePath → Io FileType → Call  -- with what stood at the path
  ran : Text → List Text → Call

-- A host with the list of such calls, the last one first.
pub record Log (H : Host) : Type 0 where
  pub calls : H.State → List Call
  pub after_perform : (c : Change) (s : H.State) → calls (H.perform c s).1 ≡ changed c ∷ calls s
  pub after_open :
      (o : OpenOptions) (p : FilePath) (s : H.State)
      → calls (H.open_file o p s).1 ≡ opened o p (kind H s p) ∷ calls s
  pub after_call : (c : FileCall) (fd : ℕ) (s : H.State) → calls (H.file_call c fd s).1 ≡ calls s
  -- What a directory lists are names.
  pub names : (s : H.State) (p : FilePath) (l : List Text) → H.read_dir s p ≡ done l → All IsName l

-- Any host, with the list beside its state.
unfoldable pub logged : Host → Host
unfolding kind
logged H = record {
  State = H.State × List Call;
  read_to_string = λ s p. H.read_to_string s.0 p;
  read = λ s p. H.read s.0 p;
  metadata = λ s p. H.metadata s.0 p;
  symlink_metadata = λ s p. H.symlink_metadata s.0 p;
  read_dir = λ s p. H.read_dir s.0 p;
  read_link = λ s p. H.read_link s.0 p;
  walk_dir = λ s p. H.walk_dir s.0 p;
  canonicalize = λ s p. H.canonicalize s.0 p;
  utc_now = λ s. H.utc_now s.0;
  to_rfc3339 = H.to_rfc3339;
  process_id = H.process_id;
  perform = λ c s. let (r, t) = H.perform c s.0 in (r, (t, changed c ∷ s.1));
  open_file =
      λ o p s. let (r, t) = H.open_file o p s.0 in (r, (t, opened o p (kind H s.0 p) ∷ s.1));
  file_call = λ c fd s. let (r, t) = H.file_call c fd s.0 in (r, (t, s.1));
  run_program = λ program args s.
      let (r, t) = H.run_program program args s.0 in (r, (t, ran program args ∷ s.1));
  base_json = H.base_json;
  env_json = H.env_json;
  session_json = H.session_json;
  floats = H.floats;
}

-- The calls of such a host so far.
unfoldable pub calls_of : (H : Host) → (logged H).State → List Call
unfolding logged
calls_of H s = s.1

unfoldable pub log_of :
    (H : Host)
    → ((s : H.State) (p : FilePath) (l : List Text) → H.read_dir s p ≡ done l → All IsName l)
    → Log (logged H)
unfolding logged kind
log_of H names = record {
  calls = λ s. s.1;
  after_perform = λ c s. refl;
  after_open = λ o p s. refl;
  after_call = λ c fd s. refl;
  names = λ s p l e. names s.0 p l e;
}
