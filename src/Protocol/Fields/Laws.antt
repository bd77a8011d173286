-- ===== src/Protocol/Fields/Laws.antt =====
-- Which messages the check of the fields lets through.
use ipa_rs_agent_controller.Common.{◌≡◌, ◌↔◌, refl, true, Option, some, List, [], ◌∷◌, arith}
use ipa_rs_agent_controller.Common.{ok, ensure, ok_or, >>=-eq-ok, contains, list_eq, nat_eq}
use ipa_rs_agent_controller.Common.Lists.{All}
use ipa_rs_agent_controller.Common.Text.{Text, text}
use ipa_rs_agent_controller.Protocol.Fields.{
  Json, object, string_field, check_fields, reject_unknown_fields,
}

-- Every field of the object is in the list.
abbrev pub OnlyFields : List Text → List (Text × Json) → Type 0
OnlyFields allowed fields = All (λ f. contains allowed f.0 ≡ true) fields

-- The object has a string as its type, that type has a list of fields, and the object has no others.
pub record IsKnown (fields : List (Text × Json)) (allowed_fields : Text → Option (List Text))
    : Type 0 where
  pub message_type : Text
  pub allowed : List Text
  pub typed : string_field (text "type") fields ≡ some message_type
  pub listed : allowed_fields message_type ≡ some allowed
  pub only : OnlyFields allowed fields

check_fields-OnlyFields :
    (allowed : List Text) (message_type : Text) (fields : List (Text × Json))
    → (check_fields allowed message_type fields ≡ ok tt) ↔ OnlyFields allowed fields
unfolding check_fields
check_fields-OnlyFields allowed message_type [] = (λ _. tt, λ _. refl)
check_fields-OnlyFields allowed message_type ((field, v) ∷ fields) = (
  λ h.
      let (_, first, rest) = >>=-eq-ok (ensure (contains allowed field) _) _ h in
      (ground arith, (check_fields-OnlyFields allowed message_type fields).0 rest),
  λ h. rw (h.0) ((check_fields-OnlyFields allowed message_type fields).1 h.1),
)

-- A message passes exactly if it is an object with a string field "type", its type is one of the protocol's,
-- and every one of its fields is a field of that type.
pub reject_unknown_fields-IsKnown :
    (fields : List (Text × Json)) (allowed_fields : Text → Option (List Text))
    → (reject_unknown_fields (object fields) allowed_fields ≡ ok tt) ↔ IsKnown fields allowed_fields
unfolding reject_unknown_fields
reject_unknown_fields-IsKnown fields allowed_fields = (
  λ h.
      let (t, typed, h₁) = >>=-eq-ok (ok_or _ (string_field (text "type") fields)) _ h in
      let (names, listed, h₂) = >>=-eq-ok (ok_or _ (allowed_fields t)) _ h₁ in
      record {
        message_type = t;
        allowed = names;
        typed = ground arith;
        listed = ground arith;
        only = (check_fields-OnlyFields names t fields).0 h₂;
      },
  λ h. rw (h.typed, h.listed) ((check_fields-OnlyFields h.allowed h.message_type fields).1 h.only),
)
