-- ===== src/Service/Guards.antt =====
-- Operations on an environment that is not running are refused before anything is changed.
use ipa_rs_agent_controller.Common.{◌≡◌, refl, ◌∙◌, Bool, false, List, ◌++◌, ◌==◌}
use ipa_rs_agent_controller.Common.{ok, err, if◌then◌else◌}
use ipa_rs_agent_controller.Common.Text.{Text, text, is_empty}
use ipa_rs_agent_controller.Model.{EnvState, env_state_eq, Env, debug_state}
use ipa_rs_agent_controller.Host.{Host}
use ipa_rs_agent_controller.Host.Effect.{World, M, pure, bail, lift, ◌>>=◌, ◌>>◌}
use ipa_rs_agent_controller.Host.Keeps.{Keeps, keeps_rules}
use ipa_rs_agent_controller.Host.Steps.{bind-ok, lift-ok, lift-err}
use ipa_rs_agent_controller.Storage.Ids.{validate_id}
use ipa_rs_agent_controller.Storage.Layout.{Layout}
use ipa_rs_agent_controller.Storage.Files.Keeps.{Keeps-read_json}
use ipa_rs_agent_controller.Storage.Records.{read_env}
use ipa_rs_agent_controller.Service.Lifecycle.{ensure_running_env}
use ipa_rs_agent_controller.Service.Logs.{Service, layout}
use ipa_rs_agent_controller.Service.Start.{exec}
use ipa_rs_agent_controller.Service.Sessions.{
  session_create, shell_attach_target, session_attach_target, session_detach, session_kill,
}

pub read_env-Keeps :
    {H : Host} {P : World H → Type 0} (l : Layout) (id : Text) → Keeps P (read_env l id)
unfolding read_env
read_env-Keeps l id = search (keeps_rules, Keeps-read_json)

read_env-world : {H : Host} (l : Layout) (id : Text) (w : World H) → (read_env l id w).1 ≡ w
read_env-world l id w = (read_env-Keeps {P = λ v. v ≡ w} l id).at w refl

-- The message of `ensure_running_env`.
abbrev pub refusal : Env → Text
refusal env =
    text "env "
    ++ (env.id
        ++ (text " is "
            ++ (debug_state env.state ++ text "; start it before running commands or sessions")))

ensure_running_env-refuses :
    (env : Env)
    → (env.state == EnvState.running) ≡ false
    → ensure_running_env env ≡ err (refusal env)
unfolding ensure_running_env
ensure_running_env-refuses env h = rw h

nonempty_step :
    {H : Host} (b : Bool) (e : Text) (w : World H)
    → b ≡ false
    → (if b then bail {H = H} e else pure tt) w ≡ (ok tt, w)
unfolding pure
nonempty_step b e w h = rw h

module _ {H : Host} (s : Service) (id : Text) (env : Env) (w : World H)
    (read : (read_env (layout s) id w).0 ≡ ok env)
    (idle : (env.state == EnvState.running) ≡ false) where
  -- A chain that reads the environment and checks that it runs.
  refused :
      {A : Type 0} (rest : Env → M H A)
      → (read_env (layout s) id >>= λ e. lift (ensure_running_env e) >> rest e) w
        ≡ (err (refusal env), w)
  refused rest =
      bind-ok (read_env (layout s) id) _ (λ i. (read i, read_env-world (layout s) id w i))
      ∙ lift-err (ensure_running_env env) _ (ensure_running_env-refuses env idle)

  exec-refused :
      (command : List Text)
      → is_empty command ≡ false
      → exec s id command w ≡ (err (refusal env), w)
  unfolding exec
  exec-refused command h = rw h (refused _)

  session_create-refused :
      (session_id : Text) (command : List Text)
      → validate_id session_id ≡ ok tt
      → is_empty command ≡ false
      → session_create s id session_id command w ≡ (err (refusal env), w)
  unfolding session_create
  session_create-refused session_id command valid h =
      lift-ok (validate_id session_id) _ valid
      ∙ bind-ok _ _ (nonempty_step (is_empty command) (text "session command cannot be empty") w h)
      ∙ refused _

  shell_attach_target-refused : shell_attach_target s id w ≡ (err (refusal env), w)
  unfolding shell_attach_target
  shell_attach_target-refused = refused _

  session_attach_target-refused :
      (session_id : Text) → session_attach_target s id session_id w ≡ (err (refusal env), w)
  unfolding session_attach_target
  session_attach_target-refused session_id = refused _

  session_detach-refused :
      (session_id : Text) → session_detach s id session_id w ≡ (err (refusal env), w)
  unfolding session_detach
  session_detach-refused session_id = refused _

  session_kill-refused :
      (session_id : Text) → session_kill s id session_id w ≡ (err (refusal env), w)
  unfolding session_kill
  session_kill-refused session_id = refused _

  -- Where the stored environment can be read and its state is not "running": running a command that is not
  -- empty, creating a session with a valid id and such a command, asking for the shell, and attaching to,
  -- detaching from and killing a session all give the same error, which names the state, and leave the
  -- world as it is.
  pub idle_env-refused :
      (session_id : Text) (command : List Text)
      → validate_id session_id ≡ ok tt
      → is_empty command ≡ false
      → (exec s id command w ≡ (err (refusal env), w))
        × (session_create s id session_id command w ≡ (err (refusal env), w))
        × (shell_attach_target s id w ≡ (err (refusal env), w))
        × (session_attach_target s id session_id w ≡ (err (refusal env), w))
        × (session_detach s id session_id w ≡ (err (refusal env), w))
        × (session_kill s id session_id w ≡ (err (refusal env), w))
  idle_env-refused session_id command valid filled = (
    exec-refused command filled,
    session_create-refused session_id command valid filled,
    shell_attach_target-refused,
    session_attach_target-refused session_id,
    session_detach-refused session_id,
    session_kill-refused session_id,
  )
