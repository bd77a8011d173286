-- ===== src/Storage/Ids/Laws.antt =====
-- A valid id is a file name.
use ipa_rs_agent_controller.Common.{ℕ, ◌≡◌, refl, true, List, [], ◌∷◌, ◌++◌, arith}
use ipa_rs_agent_controller.Common.Text.{
  Text, bytes, utf8, all_chars, is_empty, is_ascii_alphanumeric,
}
use ipa_rs_agent_controller.Path.Laws.{IsName, no_slash}
use ipa_rs_agent_controller.Storage.Ids.{is_valid_id, id_char, first_ok, last_ok}

utf8-id_char :
    (c : ℕ) (bs : List ℕ)
    → all_chars id_char (utf8 c ++ bs) ≡ true
    → (id_char c ≡ true) × (utf8 c ≡ c ∷ []) × (all_chars id_char bs ≡ true)
unfolding utf8 all_chars id_char is_ascii_alphanumeric
utf8-id_char c bs h = ground arith

all_chars-bytes :
    (id : Text) → all_chars id_char (bytes id) ≡ true → (bytes id ≡ id) × (no_slash id ≡ true)
unfolding bytes all_chars id_char is_ascii_alphanumeric
all_chars-bytes [] h = (refl, refl)
all_chars-bytes (c ∷ id) h =
    let (ok_c, one, rest) = utf8-id_char c (bytes id) h in
    let (same, none) = all_chars-bytes id rest in (rw (one, same), ground arith)

-- A valid id is one component of a path, and is written in ASCII.
pub is_valid_id-IsName : (id : Text) → is_valid_id id ≡ true → IsName id × (bytes id ≡ id)
unfolding is_valid_id first_ok last_ok id_char bytes utf8 all_chars is_empty is_ascii_alphanumeric
is_valid_id-IsName id h =
    let chars : all_chars id_char (bytes id) ≡ true = ground arith in
    let (same, slashless) = all_chars-bytes id chars in
    (
      record {
        slashless = slashless;
        nonempty = λ e. absurd (ground arith);
        not_dot = λ e. absurd (ground arith);
        not_dot_dot = λ e. absurd (ground arith);
      },
      same,
    )
