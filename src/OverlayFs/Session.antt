-- ===== src/OverlayFs/Session.antt =====
-- A mounted view and the requests that it serves: `mount` of crates/agent-overlayfs/src/main.rs.
pub mod Spared
use ipa_rs_agent_controller.Common.{ℕ, Bool, Option, none, some, List, [], ◌∷◌}
use ipa_rs_agent_controller.Common.{Result, ok, err, panic}
use ipa_rs_agent_controller.Path.{FilePath}
use ipa_rs_agent_controller.Host.{Host, Io}
use ipa_rs_agent_controller.Host.Effect as Act
use ipa_rs_agent_controller.Host.Effect.{World}
use ipa_rs_agent_controller.OverlayFs.Fallback.{root, new_roots}
use ipa_rs_agent_controller.OverlayFs.Inodes.{empty_table, intern}
use ipa_rs_agent_controller.OverlayFs.Effect.{View, Fs}
use ipa_rs_agent_controller.OverlayFs.Requests.{Request, DirEntry, Reply}
use ipa_rs_agent_controller.OverlayFs.Handlers.{serve}
use ipa_rs_agent_controller.OverlayFs.Mount.{MountArgs, validate_mount_args}

-- `visible_root.unwrap_or_else(|| PathBuf::from("/"))`
root_of : Option FilePath → FilePath
root_of none = root
root_of (some visible_root) = visible_root

-- The fields of `OverlayFs::new` that stay; the user is that of the process.
unfoldable pub new_view : ℕ → ℕ → MountArgs → (FilePath → Io FilePath) → View
unfolding root_of
new_view uid gid args canonicalize = record {
  overlay = record { lower = args.lower; upper = args.upper; whiteouts = args.whiteouts };
  fallback_roots = new_roots canonicalize args.fallback_roots;
  visible_root = root_of args.visible_root;
  uid = uid;
  gid = gid;
}

module _ {H : Host} where
  -- Those that change.
  unfoldable pub new_fs : World H → Fs H
  new_fs w = record { world = w; paths = (intern empty_table root).1; files = []; next_fh = 2 }

  -- Requests one after another, as the session of fuser takes them.
  unfoldable pub serve_all :
      View → (List DirEntry → DirEntry → Bool) → List Request → Fs H → List Reply × Fs H
  serve_all v full [] s = ([], s)
  serve_all v full (r ∷ requests) s =
      let (reply, s1) = serve v full r s in
      let (replies, s2) = serve_all v full requests s1 in (reply ∷ replies, s2)

  unfoldable pub session :
      ℕ → ℕ → MountArgs → (List DirEntry → DirEntry → Bool) → List Request → Act.M H (List Reply)
  unfolding new_view new_fs serve_all
  session uid gid args full requests w =
      let view = new_view uid gid args (H.canonicalize w.os) in
      let (replies, s) = serve_all view full requests (new_fs w) in (ok replies, s.world)

  unfoldable pub mount :
      ℕ → ℕ → MountArgs → (List DirEntry → DirEntry → Bool) → List Request → Act.M H (List Reply)
  unfolding session
  mount uid gid args full requests =
      Act.◌>>◌ (validate_mount_args args) (session uid gid args full requests)
