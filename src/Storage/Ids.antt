-- ===== src/Storage/Ids.antt =====
-- `validate_id` of crates/agent-core/src/storage.rs.
pub mod Laws
use ipa_rs_agent_controller.Common.{ℕ, Bool, true, false, ◌&&◌, ◌||◌, not, List, [], ◌∷◌, ◌++◌}
use ipa_rs_agent_controller.Common.{Result, ensure, eqb}
use ipa_rs_agent_controller.Common.Text.{
  Text, text, bytes, is_empty, all_chars, is_ascii_alphanumeric,
}

first_ok : List ℕ → Bool
first_ok [] = false
first_ok (b ∷ bs) = is_ascii_alphanumeric b

last_ok : List ℕ → Bool
last_ok [] = false
last_ok (b ∷ []) = is_ascii_alphanumeric b
last_ok (b ∷ c ∷ bs) = last_ok (c ∷ bs)

id_char : ℕ → Bool
id_char b = is_ascii_alphanumeric b || eqb b b'-'

unfoldable pub is_valid_id : Text → Bool
unfolding first_ok last_ok id_char
is_valid_id id =
    not (is_empty id)
    && (first_ok (bytes id) && (last_ok (bytes id) && all_chars id_char (bytes id)))

-- The message names the id by `{id:?}`; here it stands as it is.
unfoldable pub validate_id : Text → Result (Unit {0})
unfolding is_valid_id
validate_id id =
    ensure (is_valid_id id)
      (text "invalid id " ++ (id ++ text "; use ASCII letters, numbers, and interior '-'"))
