-- ===== src/Protocol.antt =====
-- crates/agent-core/src/protocol.rs: the messages of the controller.
pub mod Fields
use ipa_rs_agent_controller.Common.{Bool, Option, List}
use ipa_rs_agent_controller.Common.Text.{Text}
use ipa_rs_agent_controller.Path.{FilePath}
use ipa_rs_agent_controller.Model.{EnvStatus, LimitOverrides, RootfsBackend, Session}
use ipa_rs_agent_controller.Host.{CmdOutput}

-- The fields of a request stand in the order of the source.
pub data Request : Type 0 where
  init : (agentfs : FilePath) → Request
  new :
      (target base : Text) (from : FilePath) (backend : Option RootfsBackend) (profile : Text)
      (limits : LimitOverrides) (command : List Text) (cwd : Option FilePath)
      → Request
  base_freeze : (name : Text) (from : FilePath) (backend : Option RootfsBackend) → Request
  env_create : (id base profile : Text) (limits : LimitOverrides) → Request
  env_start : (id : Text) → Request
  env_stop : (id : Text) → Request
  env_destroy : (id : Text) → Request
  env_list : Request
  env_status : (id : Text) → Request
  exec : (id : Text) (command : List Text) (cwd : Option FilePath) → Request
  open_app : (env_id app : Text) (path : Option FilePath) → Request
  shell : (id : Text) (cwd : Option FilePath) (persistent : Bool) → Request
  session_create :
      (env_id session_id : Text) (command : List Text) (cwd : Option FilePath) → Request
  session_attach : (env_id session_id : Text) → Request
  session_detach : (env_id session_id : Text) → Request
  session_kill : (env_id session_id : Text) → Request
  session_list : (env_id : Text) → Request
  session_logs : (env_id session_id : Text) → Request
  diff : (env_id : Text) → Request
  export : (env_id export_type : Text) → Request
  apply : (env_id : Text) (force : Bool) → Request
  ping : Request

pub data Response : Type 0 where
  ok_response : Response
  text_response : (text : Text) → Response
  exec_response : (output : CmdOutput) → Response
  envs : List EnvStatus → Response
  status_response : EnvStatus → Response
  sessions : List Session → Response
  attach : (machine_name session_id : Text) → Response
  desktop_shell : (rootfs_path : FilePath) (command : List Text) → Response
  error : (message : Text) → Response
