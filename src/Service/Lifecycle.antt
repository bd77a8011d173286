-- ===== src/Service/Lifecycle.antt =====
-- The pure helpers of crates/agent-core/src/service.rs on the state of an environment.
use ipa_rs_agent_controller.Common.{
  ℕ, ◌+◌, ◌*◌, ◌%◌, Bool, true, false, ◌&&◌, Option, none, some, List, [], ◌∷◌, ◌++◌,
}
use ipa_rs_agent_controller.Common.{
  Result, ok, err, panic, ensure, ◌==◌, list_eq, nat_eq, leb, contains, if◌then◌else◌,
}
use ipa_rs_agent_controller.Common.Text.{Text, text, bytes}
use ipa_rs_agent_controller.Common.Sort.{sort, dedup}
use ipa_rs_agent_controller.Path.{FilePath, display, path, component_eq}
use ipa_rs_agent_controller.Model.{
  EnvState, created, running, stopped, failed, quota_exceeded, env_state_eq, Env, Session,
  debug_state,
}
use ipa_rs_agent_controller.Model.Limit
use ipa_rs_agent_controller.Model.Limit.{Floats}

unfoldable pub should_refresh_live_state : EnvState → Bool
should_refresh_live_state created = true
should_refresh_live_state running = true
should_refresh_live_state stopped = true
should_refresh_live_state _ = false

unfoldable pub should_check_quota : EnvState → Bool
should_check_quota failed = false
should_check_quota quota_exceeded = false
should_check_quota _ = true

unfoldable pub should_mark_stopped : EnvState → Bool
should_mark_stopped created = true
should_mark_stopped running = true
should_mark_stopped stopped = true
should_mark_stopped _ = false

unfoldable pub apply_stopped_state : Env → Env
unfolding should_mark_stopped
apply_stopped_state env =
    if should_mark_stopped env.state then record env { state = stopped } else env

expired_from : ℕ → ℕ → Result (Option ℕ) → Result Bool
expired_from now last (ok (some timeout)) = ok (leb (last + timeout) now)
expired_from now last (ok none) = ok false
expired_from now last (err e) = ok false
expired_from now last (panic e) = panic e

-- `now - last_active_at >= timeout`, where the timeout is not negative
unfoldable pub idle_timeout_expired : Floats → Env → ℕ → Result Bool
unfolding expired_from
idle_timeout_expired F env now =
    let timeout = expired_from now env.last_active_at (Limit.idle_timeout_duration F env.limits) in
    if env.state == running then timeout else ok false

unfoldable pub ensure_running_env : Env → Result (Unit {0})
ensure_running_env env = ensure (env.state == running) (
    text "env "
    ++ (env.id
        ++ (text " is "
            ++ (debug_state env.state ++ text "; start it before running commands or sessions"))))

unfoldable pub should_reject_session_create : Bool → Bool → Bool
should_reject_session_create metadata_exists is_running = metadata_exists && is_running

session_ids : List Session → List Text
session_ids [] = []
session_ids (s ∷ ss) = s.id ∷ session_ids ss

-- The environment with its index of sessions, if that has to be written.
unfoldable pub sync_env_session_index : Env → List Session → Option Env
unfolding session_ids
sync_env_session_index env sessions =
    let ids = dedup (sort (session_ids sessions)) in
    if env.sessions == ids then none else some (record env { sessions = ids })

-- `env.sessions.push(id); env.sessions.sort()`, if the id is not there
unfoldable pub add_session : Env → Text → Env
add_session env session_id =
    if contains env.sessions session_id
    then env
    else record env { sessions = sort (env.sessions ++ (session_id ∷ [])) }

unfoldable pub default_shell_command : List Text
default_shell_command = text "/bin/bash" ∷ []

unfoldable pub base_source_label : FilePath → Text
base_source_label from = if from == path (text "/") then text "current-project-vm" else display from

-- `fold(0u8, |hash, byte| hash.wrapping_mul(31).wrapping_add(byte))`
hash_bytes : ℕ → List ℕ → ℕ
hash_bytes hash [] = hash
hash_bytes hash (b ∷ bs) = hash_bytes ((hash * 31 % 256 + b) % 256) bs

unfoldable pub child_ipv4_octet : Text → ℕ
unfolding hash_bytes
child_ipv4_octet env_id = 2 + hash_bytes 0 (bytes env_id) % 253
