-- ===== src/Lib.antt =====
-- Agent controller: a daemon and a command line that give each agent an environment of its own, a copy
-- of a frozen base with a container, sessions and limits.
--
-- The program's parts and how they interact. A client sends a request as one line of JSON
-- (crates/agent-core/src/protocol.rs); the daemon reads it, and `AgentService::handle`
-- (crates/agent-core/src/service.rs) answers it. The service keeps no state in memory: the state is the tree
-- below the directory `agentfs`, whose layout and metadata files crates/agent-core/src/storage.rs owns.
-- It runs programs through crates/agent-core/src/command.rs: `btrfs` for snapshots and quotas
-- (crates/agent-core/src/btrfs.rs), `systemd-run`, `systemctl` and `machinectl` for the machine of an
-- environment (crates/agent-core/src/nspawn.rs), and `tmux` inside the machine for its sessions
-- (crates/agent-core/src/session.rs). Profiles with limits come from crates/agent-core/src/config.rs, and
-- crates/agent-core/src/export.rs tells what an environment changed against its base.
--
-- Which file models which part. Definitions keep the names of the source's functions, fields and variants.
--   Common       lists, texts, maps, the stable sort, tests and `anyhow::Result` with a panic as third outcome
--   Path         `std::path` on Unix: a path is the list of its components
--   Model        crates/agent-core/src/model.rs; Model.Limit and Model.Policy are its validation
--   Host         what the program calls and does not implement: files, programs, the clock, serde_json.
--                Host.Effect is the monad of an action on it, Host.Keeps and Host.Triple are rules for
--                invariants and for results of actions, Host.Lawful says what is relied on of the files
--   Storage      crates/agent-core/src/storage.rs: Ids, Layout, Metadata (validation), Files (temporary file
--                and rename), Records (bases, environments, sessions)
--   Command      crates/agent-core/src/command.rs; Command.Shell is its quoting
--   Btrfs, Nspawn, Session, Config, Reflink, Export, Protocol
--                the file of crates/agent-core/src with that name
--   Service      crates/agent-core/src/service.rs: Lifecycle (pure helpers), Logs, Rootfs, Bases, Envs, Start,
--                Sessions, Exports, Handle (the dispatch). Service.Guards is about the checks before a command,
--                Service.Invariant about the metadata that stays valid
--   Overlay      crates/agent-core/src/path_overlay.rs: where a path of a view is stored in its layers, and
--                whiteouts. Overlay.Reading and Overlay.Lower are about the paths that its calls name
--   OverlayFs    crates/agent-overlayfs/src/main.rs: Mount (the checks of the arguments), Fallback, Inodes,
--                Attributes, Storage (the stored file of a path), Directory, Requests and OpenFiles, Handlers
--                (one function for each request of FUSE), Session (the mounted view). OverlayFs.Keeps has the
--                rules for invariants of handlers, of the host in Keeps.Os and of the table of inodes in
--                Keeps.Table; OverlayFs.Looking is about the requests that change nothing, OverlayFs.Lower
--                about the paths that their calls name, Inodes.Inverse and Inodes.Stable about inodes,
--                Fallback.Allowlist about the parts of the system that a view shows, Directory.Hidden and
--                Directory.Listed about what a directory lists, Requests.Pages about reading it page by page
--   Tests        two concrete hosts, and each theorem that has a hypothesis at one input
-- A module named Laws, or after what it proves, holds the theorems on the module above it.
--
-- State. An action is a function from a world (the host's state and the counter behind the temporary file
-- names) to a result and a world; the world is left also by an error, so what a failed step has done stays
-- visible. Every call that can change files is one value of `Host.Change`, made in the order of the source.
-- Calls of other processes between two calls are not modelled: nothing else changes the files.
-- A handler of the file system is a function from the world, the table of inodes, the open files and the next
-- file handle to a reply and these. Handlers run one after another, and their locks are never poisoned. The
-- flags of `open` have the values of macOS, the only system on which this file system is built.
-- `Host.Log` writes down the calls of any host that can change a file, with the paths that they name. What a
-- view leaves alone is said of these calls, since a link on a path leads where the system sends it:
-- `File::create`, `set_permissions` and `open` of the source follow a link that stands at their path.
--
-- Bounds and fuel. Texts are lists of code points, and a file's content is a text: the model reads no file
-- that is not UTF-8. The counter of temporary names wraps at 2 ^ 64, the hash behind the address of a child
-- at 2 ^ 8, an exit status is an i32 and a quota a u128. The waiting loops of Nspawn run 50 and 100 rounds and
-- that of Btrfs the rounds of the source, as counted recursion. `collect_overlay_changed_paths` runs on fuel
-- 4096 for the depth of the tree, since Linux has no longer path; so does `copy_tree` of the overlay, which
-- would end the process by its recursion; `show` has fuel for every digit. File handles and inodes are u64.
--
-- Messages. An error is its text with the contexts before it; the part of a message that a library prints
-- (of serde_json behind "invalid json", the escapes of `{:?}`) is left out.
--
-- Not modelled: crates/agent-core/src/desktop.rs, of the FUSE file system (crates/agent-overlayfs) the traces
-- and the command `check`, the view daemon of macOS (crates/agent-viewd), the command line
-- (crates/agentctl), the socket of the daemon (crates/agent-forkd), the Windows tools and driver
-- (crates/agent-minifilterctl, drivers) and the graphical client (apps/agent-studio): they are I/O, system
-- calls or parts that the service does not use.
pub mod Common
pub mod Path
pub mod Model
pub mod Host
pub mod Storage
pub mod Command
pub mod Btrfs
pub mod Nspawn
pub mod Session
pub mod Config
pub mod Reflink
pub mod Export
pub mod Protocol
pub mod Service
pub mod Overlay
pub mod OverlayFs
pub mod Tests
