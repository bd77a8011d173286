-- ===== src/Protocol/Fields.antt =====
-- `reject_unknown_fields` of crates/agent-core/src/protocol.rs, on the JSON value of a message.
pub mod Laws
use ipa_rs_agent_controller.Common.{String, Bool, Option, none, some, List, [], ◌∷◌, ◌++◌}
use ipa_rs_agent_controller.Common.{
  Result, ok, err, ◌>>=◌, ◌>>◌, ensure, ok_or, contains, list_eq, nat_eq, ◌==◌, if◌then◌else◌,
}
use ipa_rs_agent_controller.Common.Text.{Text, text}

-- `serde_json::Value`, as far as the check looks: every other value is `other`.
pub data Json : Type 0 where
  string : Text → Json
  other : Json

-- A message is an object, by its fields in order, or some other value.
pub data Message : Type 0 where
  object : List (Text × Json) → Message
  no_object : Message

-- `object.get(name).and_then(Value::as_str)`
unfoldable pub string_field : Text → List (Text × Json) → Option Text
string_field name [] = none
string_field name ((k, v) ∷ fields) =
    if k == name then elim v [ string s ↦ some s | other ↦ none ] else string_field name fields

check_fields : List Text → Text → List (Text × Json) → Result (Unit {0})
check_fields allowed message_type [] = ok tt
check_fields allowed message_type ((field, v) ∷ fields) = do
  ensure (contains allowed field)
      (text "unknown field " ++ (field ++ (text " for protocol message type " ++ message_type)))
  check_fields allowed message_type fields

unfoldable pub reject_unknown_fields : Message → (Text → Option (List Text)) → Result (Unit {0})
unfolding check_fields
reject_unknown_fields no_object allowed_fields = err (text "protocol message must be a JSON object")
reject_unknown_fields (object fields) allowed_fields = do
  message_type ←
      ok_or (text "protocol message missing string field type") (string_field (text "type") fields)
  allowed ←
      ok_or (text "unknown protocol message type " ++ message_type) (allowed_fields message_type)
  check_fields allowed message_type fields

-- The table by message type: the first row whose names hold the type.
unfoldable pub row_of : Text → List (List Text × List Text) → Option (List Text)
row_of name [] = none
row_of name ((names, fields) ∷ rows) =
    if contains names name then some (text "type" ∷ fields) else row_of name rows

abbrev words : List String → List Text
words [] = []
words (w ∷ ws) = text w ∷ words ws

unfoldable pub request_table : List (List Text × List Text)
request_table =
    (words ("init" ∷ []), words ("agentfs" ∷ []))
    ∷ (
      words ("new" ∷ []),
      words
          ("target" ∷ "base" ∷ "from" ∷ "backend" ∷ "profile" ∷ "limits" ∷ "command" ∷ "cwd" ∷ []),
    )
    ∷ (words ("base_freeze" ∷ []), words ("name" ∷ "from" ∷ "backend" ∷ []))
    ∷ (words ("env_create" ∷ []), words ("id" ∷ "base" ∷ "profile" ∷ "limits" ∷ []))
    ∷ (words ("env_start" ∷ "env_stop" ∷ "env_destroy" ∷ "env_status" ∷ []), words ("id" ∷ []))
    ∷ (words ("shell" ∷ []), words ("id" ∷ "cwd" ∷ "persistent" ∷ []))
    ∷ (words ("env_list" ∷ "ping" ∷ []), [])
    ∷ (words ("exec" ∷ []), words ("id" ∷ "command" ∷ "cwd" ∷ []))
    ∷ (words ("open" ∷ []), words ("env_id" ∷ "app" ∷ "path" ∷ []))
    ∷ (words ("session_create" ∷ []), words ("env_id" ∷ "session_id" ∷ "command" ∷ "cwd" ∷ []))
    ∷ (
      words ("session_attach" ∷ "session_detach" ∷ "session_kill" ∷ "session_logs" ∷ []),
      words ("env_id" ∷ "session_id" ∷ []),
    )
    ∷ (words ("session_list" ∷ "diff" ∷ []), words ("env_id" ∷ []))
    ∷ (words ("export" ∷ []), words ("env_id" ∷ "export_type" ∷ []))
    ∷ (words ("apply" ∷ []), words ("env_id" ∷ "force" ∷ []))
    ∷ []

unfoldable pub request_allowed_fields : Text → Option (List Text)
unfolding row_of request_table
request_allowed_fields message_type = row_of message_type request_table

unfoldable pub response_table : List (List Text × List Text)
response_table =
    (words ("ok" ∷ []), [])
    ∷ (words ("text" ∷ []), words ("text" ∷ []))
    ∷ (words ("exec" ∷ []), words ("status" ∷ "stdout" ∷ "stderr" ∷ []))
    ∷ (words ("envs" ∷ []), words ("envs" ∷ []))
    ∷ (words ("env_status" ∷ []), words ("status" ∷ []))
    ∷ (words ("sessions" ∷ []), words ("sessions" ∷ []))
    ∷ (words ("attach" ∷ []), words ("machine_name" ∷ "session_id" ∷ []))
    ∷ (words ("desktop_shell" ∷ []), words ("rootfs_path" ∷ "command" ∷ []))
    ∷ (words ("error" ∷ []), words ("message" ∷ []))
    ∷ []

unfoldable pub response_allowed_fields : Text → Option (List Text)
unfolding row_of response_table
response_allowed_fields message_type = row_of message_type response_table
