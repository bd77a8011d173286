-- ===== src/Model/Policy.antt =====
-- `NetworkPolicy::validate` of crates/agent-core/src/model.rs.
pub mod Laws
use ipa_rs_agent_controller.Common.{Bool, not, ◌||◌, Option, none, some, List, [], ◌∷◌}
use ipa_rs_agent_controller.Common.{Result, ok, ◌>>=◌, ◌>>◌, ensure, contains, list_eq, nat_eq}
use ipa_rs_agent_controller.Common.Text.{Text, text, trim, starts_with, is_empty}
use ipa_rs_agent_controller.Model.{NetworkPolicy}

check_proxy : Option Text → Result (Unit {0})
check_proxy none = ok tt
check_proxy (some proxy) =
    ensure (starts_with proxy (text "http://") || starts_with proxy (text "https://"))
      (text "egress_proxy must start with http:// or https://")

-- The loop over the allowlist; `seen` holds the entries before.
check_entries : List Text → List Text → Result (Unit {0})
check_entries seen [] = ok tt
check_entries seen (entry ∷ entries) = do
  ensure (not (is_empty (trim entry))) (text "allowlist entries must not be empty")
  ensure (not (contains seen entry)) (text "allowlist entries must be unique")
  check_entries (entry ∷ seen) entries

unfoldable pub validate : NetworkPolicy → Result (Unit {0})
unfolding check_proxy check_entries
validate p = do check_proxy p.egress_proxy; check_entries [] p.allowlist
