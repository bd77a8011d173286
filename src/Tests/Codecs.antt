-- ===== src/Tests/Codecs.antt =====
-- A lawful encoding of the metadata, in place of serde_json.
use ipa_rs_agent_controller.Common.{
  ℕ, zero, suc, ◌≡◌, refl, ap, eqb, if◌then◌else◌, Option, none, some, List, [], ◌∷◌, ◌++◌,
}
use ipa_rs_agent_controller.Common.Lists.{append_assoc, length}
use ipa_rs_agent_controller.Common.Text.{Text, text}
use ipa_rs_agent_controller.Path.{Component, root_dir, cur_dir, parent_dir, normal, FilePath}
use ipa_rs_agent_controller.Host.{Codec}
use ipa_rs_agent_controller.Model.{
  RootfsBackend, btrfs, overlay, path_preserving_overlay, apfs_clone, windows_block_clone,
  windows_minifilter_overlay, EnvState, Limits, NetworkPolicy, Env,
}
use ipa_rs_agent_controller.Storage.Records.Laws.{CodecLaw}

-- A value is read back from the front of a text, and the rest of the text is left.
record Encoding (A : Type 0) : Type 0 where
  put : A → Text
  get : Text → Option (A × Text)
  law : (a : A) (s : Text) → get (put a ++ s) ≡ some (a, s)

map_get : {A B : Type 0} → (A → B) → Option (A × Text) → Option (B × Text)
map_get f none = none
map_get f (some (a, s)) = some (f a, s)

and_get : {A B : Type 0} → (A → Text → Option (B × Text)) → Option (A × Text) → Option (B × Text)
and_get f none = none
and_get f (some (a, s)) = f a s

get_nat : Text → Option (ℕ × Text)
get_nat [] = none
get_nat (n ∷ s) = some (n, s)

nat : Encoding ℕ
unfolding get_nat
nat = record { put = λ n. n ∷ []; get = get_nat; law = λ n s. refl }

-- A type that another one represents.
through :
    {A B : Type 0}
    → Encoding A
    → (to : B → A) → (from : A → B) → ((b : B) → from (to b) ≡ b)
    → Encoding B
unfolding map_get
through e to from back = record {
  put = λ b. e.put (to b);
  get = λ s. map_get from (e.get s);
  law = λ b s. rw (e.law (to b) s, back b);
}

both : {A B : Type 0} → Encoding A → Encoding B → Encoding (A × B)
unfolding and_get map_get
both d e = record {
  put = λ p. d.put p.0 ++ e.put p.1;
  get = λ s. and_get (λ a r. map_get (λ b. (a, b)) (e.get r)) (d.get s);
  law = λ p s. rw (append_assoc (d.put p.0) (e.put p.1) s, d.law p.0 (e.put p.1 ++ s), e.law p.1 s);
}

put_all : {A : Type 0} → Encoding A → List A → Text
put_all e [] = []
put_all e (a ∷ l) = e.put a ++ put_all e l

get_all : {A : Type 0} → Encoding A → ℕ → Text → Option (List A × Text)
unfolding and_get map_get
get_all e zero s = some ([], s)
get_all e (suc n) s = and_get (λ a r. map_get (λ l. a ∷ l) (get_all e n r)) (e.get s)

all_law :
    {A : Type 0} (e : Encoding A) (l : List A) (s : Text)
    → get_all e (length l) (put_all e l ++ s) ≡ some (l, s)
unfolding put_all get_all
all_law e [] s = refl
all_law e (a ∷ l) s =
    rw (append_assoc (e.put a) (put_all e l) s, e.law a (put_all e l ++ s), all_law e l s)

list : {A : Type 0} → Encoding A → Encoding (List A)
unfolding and_get get_nat put_all get_all
list e = record {
  put = λ l. length l ∷ put_all e l;
  get = λ s. and_get (get_all e) (get_nat s);
  law = λ l s. all_law e l s;
}

to_list : {A : Type 0} → Option A → List A
to_list none = []
to_list (some a) = a ∷ []

of_list : {A : Type 0} → List A → Option A
of_list [] = none
of_list (a ∷ _) = some a

option : {A : Type 0} → Encoding A → Encoding (Option A)
unfolding to_list of_list
option e = through (list e) to_list of_list (elim [ none ↦ refl | some a ↦ refl ])

texts : Encoding Text
texts = list nat

component_to : Component → List Text
component_to root_dir = []
component_to cur_dir = [] ∷ []
component_to parent_dir = [] ∷ [] ∷ []
component_to (normal s) = s ∷ [] ∷ [] ∷ []

component_from : List Text → Component
component_from [] = root_dir
component_from (s ∷ []) = cur_dir
component_from (s ∷ _ ∷ []) = parent_dir
component_from (s ∷ _ ∷ _ ∷ _) = normal s

paths : Encoding FilePath
unfolding component_to component_from
paths = list (
    through (list texts) component_to component_from
      (elim [ root_dir ↦ refl | cur_dir ↦ refl | parent_dir ↦ refl | normal s ↦ refl ]))

backend_to : RootfsBackend → ℕ
backend_to btrfs = 0
backend_to overlay = 1
backend_to path_preserving_overlay = 2
backend_to apfs_clone = 3
backend_to windows_block_clone = 4
backend_to windows_minifilter_overlay = 5

backend_from : ℕ → RootfsBackend
backend_from n =
    if eqb n 0
    then btrfs
    else if eqb n 1
    then overlay
    else if eqb n 2
    then path_preserving_overlay
    else if eqb n 3
    then apfs_clone
    else if eqb n 4
    then windows_block_clone
    else windows_minifilter_overlay

backends : Encoding RootfsBackend
unfolding backend_to backend_from
backends = through nat backend_to backend_from (elim [
  | btrfs ↦ refl
  | overlay ↦ refl
  | path_preserving_overlay ↦ refl
  | apfs_clone ↦ refl
  | windows_block_clone ↦ refl
  | windows_minifilter_overlay ↦ refl
])

state_to : EnvState → ℕ
state_to EnvState.created = 0
state_to EnvState.running = 1
state_to EnvState.stopped = 2
state_to EnvState.failed = 3
state_to EnvState.quota_exceeded = 4

state_from : ℕ → EnvState
state_from n =
    if eqb n 0
    then EnvState.created
    else if eqb n 1
    then EnvState.running
    else if eqb n 2
    then EnvState.stopped
    else if eqb n 3
    then EnvState.failed
    else EnvState.quota_exceeded

states : Encoding EnvState
unfolding state_to state_from
states = through nat state_to state_from (elim [
  | EnvState.created ↦ refl
  | EnvState.running ↦ refl
  | EnvState.stopped ↦ refl
  | EnvState.failed ↦ refl
  | EnvState.quota_exceeded ↦ refl
])

text_pairs : Encoding (Text × Text)
text_pairs = both texts texts

limits : Encoding Limits
limits =
    through (both (both text_pairs text_pairs) (both text_pairs nat))
      (λ l. (
        ((l.cpu_max, l.memory_max), (l.disk_max, l.network)),
        ((l.idle_timeout, l.max_runtime), l.pids_max),
      ))
      (λ p. record {
        cpu_max = p.0.0.0;
        memory_max = p.0.0.1;
        pids_max = p.1.1;
        disk_max = p.0.1.0;
        network = p.0.1.1;
        idle_timeout = p.1.0.0;
        max_runtime = p.1.0.1;
      })
      (λ l. refl)

policies : Encoding NetworkPolicy
policies =
    through (both (option texts) (list texts)) (λ p. (p.egress_proxy, p.allowlist))
      (λ q. record { egress_proxy = q.0; allowlist = q.1 }) (λ p. refl)

envs : Encoding Env
envs =
    through
      (both (both (both text_pairs text_pairs) (both backends paths))
        (both (both (both states (both nat nat)) (both limits policies)) (list texts)))
      (λ e. (
        (((e.id, e.base_id), (e.machine_name, e.profile)), (e.backend, e.rootfs_path)),
        (((e.state, (e.created_at, e.last_active_at)), (e.limits, e.network_policy)), e.sessions),
      ))
      (λ p. record {
        id = p.0.0.0.0;
        base_id = p.0.0.0.1;
        backend = p.0.1.0;
        rootfs_path = p.0.1.1;
        machine_name = p.0.0.1.0;
        state = p.1.0.0.0;
        profile = p.0.0.1.1;
        created_at = p.1.0.0.1.0;
        last_active_at = p.1.0.0.1.1;
        limits = p.1.0.1.0;
        network_policy = p.1.0.1.1;
        sessions = p.1.1;
      })
      (λ e. refl)

only_value : {A : Type 0} → Option (A × Text) → Option A
only_value none = none
only_value (some (a, s)) = some a

pub env_codec : Codec Env
unfolding only_value envs
env_codec = record { to_json = λ e. envs.put e; from_json = λ s. only_value (envs.get s) }

pub env_codec-law : CodecLaw env_codec
unfolding env_codec
env_codec-law = record { reads_back = λ e. ap only_value (envs.law e (text "\n")) }
