-- ===== src/Tests/Machine.antt =====
-- A host whose files are a function from paths, whose programs all end well, and whose numbers are whole.
use Prim.Native.Nat.{◌-◌}
use ipa_rs_agent_controller.Common.{
  ℕ, ◌+◌, ◌*◌, Option, none, some, [], ◌∷◌, ◌++◌, arith, list_eq, ◌==◌, ltb, eqb, if◌then◌else◌,
}
use ipa_rs_agent_controller.Common.Text.{Text, text, is_ascii_digit}
use ipa_rs_agent_controller.Common.Lists.{length}
use ipa_rs_agent_controller.Path.{FilePath, component_eq, path_starts_with}
use ipa_rs_agent_controller.Model.Limit.{Floats}
use ipa_rs_agent_controller.Host.{
  Host, Io, done, not_found, failed, Metadata, Stamp, pos, FileType, nonneg, Codec, touches, Change,
  create, create_new, open_append, write_all, rename, reflink, remove_file, remove_dir_all,
  rename_tree, copy, remove_dir,
}
use ipa_rs_agent_controller.Host.Effect.{World}
use ipa_rs_agent_controller.Host.Lawful.{Lawful}
use ipa_rs_agent_controller.Tests.Codecs.{env_codec}

abbrev pub Files : Type 0
Files = FilePath → Io Text

abbrev put_file : FilePath → Io Text → Files → Files
put_file p c s q = if q == p then c else s q

append_to : Io Text → Text → Io Text
append_to (done t) u = done (t ++ u)
append_to not_found u = not_found
append_to (failed e) u = failed e

opened : Io Text → Io Text
opened (done t) = done t
opened _ = done []

moved : Io Text → FilePath → FilePath → Files → Io (Unit {0}) × Files
moved (done t) a b s = (done tt, put_file b (done t) (put_file a not_found s))
moved not_found a b s = (not_found, s)
moved (failed e) a b s = (failed e, s)

copied : Io Text → FilePath → Files → Io (Unit {0}) × Files
copied (done t) b s = (done tt, put_file b (done t) s)
copied not_found b s = (not_found, s)
copied (failed e) b s = (failed e, s)

unfoldable pub perform_change : Change → Files → Io (Unit {0}) × Files
unfolding append_to opened moved copied
perform_change (create p) s = (done tt, put_file p (done []) s)
perform_change (create_new p) s = (done tt, put_file p (done []) s)
perform_change (open_append p) s = (done tt, put_file p (opened (s p)) s)
perform_change (write_all p u) s = (done tt, put_file p (append_to (s p) u) s)
perform_change (rename a b) s = moved (s a) a b s
perform_change (reflink a b) s = copied (s a) b s
perform_change (remove_file p) s = (done tt, put_file p not_found s)
perform_change (remove_dir_all p) s =
    (done tt, λ q. if path_starts_with q p then not_found else s q)
perform_change (rename_tree a b) s = (failed (text "no directories"), s)
perform_change (copy a b) s = copied (s a) b s
perform_change (remove_dir p) s = (not_found, s)
perform_change _ s = (done tt, s)

abbrev pub epoch : Stamp
epoch = record { sec = pos 0; nsec = pos 0 }

file_metadata : Io Text → Io Metadata
file_metadata (done t) = done (record {
  file_type = FileType.regular;
  mode = 0o644;
  uid = 0;
  gid = 0;
  len = length t;
  blocks = 1;
  nlink = 1;
  rdev = 0;
  blksize = 4096;
  atime = epoch;
  mtime = epoch;
  ctime = epoch;
})
file_metadata not_found = not_found
file_metadata (failed e) = failed e

-- Decimal numbers without a fraction.
parse_digits : ℕ → Text → Option ℕ
parse_digits n [] = some n
parse_digits n (c ∷ s) =
    let rest = parse_digits (10 * n + (c - b'0')) s in if is_ascii_digit c then rest else none

unfoldable pub whole_numbers : Floats
unfolding parse_digits
whole_numbers = record {
  F64 = ℕ;
  parse = λ s. elim s [ [] ↦ none | c ∷ t ↦ parse_digits 0 (c ∷ t) ];
  le_zero = λ n. eqb n 0;
  times = λ n k. n * k;
  from_secs = λ n. if ltb n 18446744073709551616 then some (1000000000 * n) else none;
  from_std = λ n. if ltb n 9223372036854775808000000 then some n else none;
}

abbrev pub no_json : {A : Type 0} → Codec A
no_json = record { to_json = λ a. []; from_json = λ s. none }

unfoldable pub machine : Host
unfolding perform_change file_metadata whole_numbers
machine = record {
  State = Files;
  read_to_string = λ s p. s p;
  read = λ s p. s p;
  metadata = λ s p. file_metadata (s p);
  symlink_metadata = λ s p. file_metadata (s p);
  read_dir = λ s p. done [];
  read_link = λ s p. not_found;
  walk_dir = λ s p. done [];
  canonicalize = λ s p. done p;
  utc_now = λ s. 7;
  to_rfc3339 = λ n. text "now";
  process_id = 42;
  perform = perform_change;
  open_file = λ options p s. (not_found, s);
  file_call = λ call fd s. (not_found, s);
  run_program = λ program args s.
      (done (record { status = nonneg 0; stdout = text "running\n"; stderr = [] }), s);
  base_json = no_json;
  env_json = env_codec;
  session_json = no_json;
  floats = whole_numbers;
}

unfoldable pub empty_world : World machine
unfolding machine
empty_world = record { os = λ p. not_found; tmp_counter = 0 }

pub machine-Lawful : Lawful machine
unfolding machine perform_change touches append_to moved copied opened
machine-Lawful = record {
  keeps = elim [
    | create p ↦ λ s q t h r. ground arith
    | create_new p ↦ λ s q t h r. ground arith
    | open_append p ↦ λ s q t h r. ground arith
    | write_all p u ↦ λ s q t h r. ground arith
    | rename a b ↦ λ s q t h r. ground arith
    | reflink a b ↦ λ s q t h r. ground arith
    | remove_file p ↦ λ s q t h r. ground arith
    | remove_dir_all p ↦ λ s q t h r. ground arith
    | copy a b ↦ λ s q t h r. ground arith
    | _ ↦ λ s q t h r. r
  ];
  adds_nothing = elim [
    | create p ↦ λ s q t h r. ground arith
    | create_new p ↦ λ s q t h r. ground arith
    | open_append p ↦ λ s q t h r. ground arith
    | write_all p u ↦ λ s q t h r. ground arith
    | rename a b ↦ λ s q t h r. ground arith
    | reflink a b ↦ λ s q t h r. ground arith
    | remove_file p ↦ λ s q t h r. ground arith
    | remove_dir_all p ↦ λ s q t h r. ground arith
    | copy a b ↦ λ s q t h r. ground arith
    | _ ↦ λ s q t h r. r
  ];
  created = λ p s h. ground arith;
  written = λ p t u s h r. ground arith;
  renamed = λ a b t s h r. ground arith;
  not_renamed = λ a b q t s h r. ground arith;
  removed = λ p q t s r. ground arith;
  removed_all = λ p q t s r. ground arith;
}
