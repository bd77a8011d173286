-- ===== src/Tests/Views.antt =====
-- The theorems on views, each on one disk.
use ipa_rs_agent_controller.Common.{
  ◌≡◌, refl, Bool, false, none, List, [], ◌∷◌, ◌++◌, ◌==◌, ◌||◌, option_eq, list_eq, nat_eq,
  if◌then◌else◌,
}
use ipa_rs_agent_controller.Common.Text.{Text, text, bytes}
use ipa_rs_agent_controller.Path.{FilePath, root_dir, normal, component_eq, path_starts_with}
use ipa_rs_agent_controller.Host.Effect.{World}
use ipa_rs_agent_controller.Host.Log.{logged}
use ipa_rs_agent_controller.OverlayFs.Mount.{MountArgs}
use ipa_rs_agent_controller.Host.{filetype_eq, done}
use ipa_rs_agent_controller.Common.{some}
use ipa_rs_agent_controller.Common.Sort.{dedup, sort_by, text_le}
use ipa_rs_agent_controller.OverlayFs.Fallback.{fallback, new_roots, find_root, is_found}
use ipa_rs_agent_controller.OverlayFs.Fallback.Allowlist.{Outside, fallback-Outside}
use ipa_rs_agent_controller.Path.{strip_path}
use ipa_rs_agent_controller.OverlayFs.Requests.{
  Request, DirEntry, lookup, create, write, release, unlink, readdir, symlink, setattr,
}
use ipa_rs_agent_controller.Tests.Disk.{Disk, Node, absent, folder, file, disk}

abbrev env_dir : FilePath
env_dir = root_dir ∷ normal (text "agentfs") ∷ normal (text "envs") ∷ normal (text "e1") ∷ []

abbrev below : Text → FilePath
below name = env_dir ++ (normal name ∷ [])

abbrev pub args : MountArgs
args = record {
  mount_point = below (text "view-root");
  visible_root = none;
  lower = below (text "lower");
  upper = below (text "upper");
  whiteouts = below (text "whiteouts");
  fallback_roots = [];
  fs_name = text "agentfs";
}

-- A lower layer with one file.
abbrev first_nodes : FilePath → Node
first_nodes p =
    if p == args.lower ++ (normal (text "a") ∷ [])
    then file (b'x' ∷ [])
    else if path_starts_with (args.lower) p || (p == args.mount_point)
    then folder
    else absent

abbrev first_disk : Disk
first_disk = record {
  node = first_nodes;
  paths = (args.lower ++ (normal (text "a") ∷ [])) ∷ [];
  files = λ fd. none;
  next = 3;
}

unfoldable pub start : World disk
unfolding disk
start = record { os = first_disk; tmp_counter = 0 }

abbrev pub never_full : List DirEntry → DirEntry → Bool
never_full got e = false

-- A file is hidden, another made and written, and the directory is read; a link into the lower layer is
-- made and given a size.
abbrev requests : List Request
requests =
    lookup 1 (text "a")
    ∷ create 1 (text "b") 0o644 2
    ∷ write 2 0 (bytes (text "new"))
    ∷ release 2
    ∷ unlink 1 (text "a")
    ∷ readdir 1 0
    ∷ symlink 1 (text "l") (text "/agentfs/envs/e1/lower/new")
    ∷ setattr 4 none (some 0)
    ∷ []

abbrev lower_a : FilePath
lower_a = args.lower ++ (normal (text "a") ∷ [])

-- The same disk with an empty list of calls.
unfoldable logged_start : World (logged disk)
unfolding logged disk
logged_start = record { os = (first_disk, []); tmp_counter = 0 }

abbrev allowlist : List FilePath
allowlist = below (text "view-root") ∷ args.lower ∷ []

a_found : fallback disk (new_roots done allowlist) start.os lower_a ≡ some lower_a
unfolding fallback new_roots find_root is_found path_starts_with strip_path component_eq list_eq
    text disk start dedup sort_by text_le
a_found = refl

fallback-Outside_example : Outside done (disk.canonicalize start.os) allowlist lower_a lower_a
fallback-Outside_example = fallback-Outside disk done allowlist start.os lower_a lower_a a_found
