-- ===== src/Model/Policy/Laws.antt =====
-- What a policy that is accepted looks like.
use ipa_rs_agent_controller.Common.{
  ◌≡◌, ◌≢◌, ◌↔◌, refl, true, false, not, ◌||◌, Option, none, some, List, [], ◌∷◌, arith,
}
use ipa_rs_agent_controller.Common.{ok, ensure, contains, list_eq, nat_eq, >>=-eq-ok}
use ipa_rs_agent_controller.Common.Lists.{All, All-map, All-zip, Distinct}
use ipa_rs_agent_controller.Common.Text.{Text, text, trim, is_empty, starts_with}
use ipa_rs_agent_controller.Model.{NetworkPolicy}
use ipa_rs_agent_controller.Model.Policy.{check_proxy, check_entries, validate}

abbrev pub Nonblank : Text → Type 0
Nonblank entry = is_empty (trim entry) ≡ false

abbrev pub IsProxy : Option Text → Type 0
IsProxy none = Unit
IsProxy (some proxy) =
    (starts_with proxy (text "http://") || starts_with proxy (text "https://")) ≡ true

pub record IsPolicy (p : NetworkPolicy) : Type 0 where
  pub proxy : IsProxy p.egress_proxy
  pub nonblank : All Nonblank p.allowlist
  pub distinct : Distinct p.allowlist

pub unseen :
    (seen : List Text) (entry e : Text)
    → contains (entry ∷ seen) e ≡ false
    → (entry ≢ e) × (contains seen e ≡ false)
unfolding contains
unseen seen entry e h = ground arith

pub unseen_back :
    (seen : List Text) (entry e : Text)
    → entry ≢ e
    → contains seen e ≡ false
    → contains (entry ∷ seen) e ≡ false
unfolding contains
unseen_back seen entry e h k = ground arith

check_entries-ok :
    (seen l : List Text)
    → check_entries seen l ≡ ok tt
    → All Nonblank l × Distinct l × All (λ e. contains seen e ≡ false) l
unfolding check_entries
check_entries-ok seen [] h = (tt, tt, tt)
check_entries-ok seen (entry ∷ l) h =
    let (_, filled, h₁) =
      >>=-eq-ok (ensure (not (is_empty (trim entry))) (text "allowlist entries must not be empty"))
        _ h in
    let (_, fresh, h₂) =
      >>=-eq-ok (ensure (not (contains seen entry)) (text "allowlist entries must be unique")) _
        h₁ in
    let (nonblank, distinct, others) = check_entries-ok (entry ∷ seen) l h₂ in
    (
      (ground arith, nonblank),
      (All-map (λ e k. (unseen seen entry e k).0) l others, distinct),
      (ground arith, All-map (λ e k. (unseen seen entry e k).1) l others),
    )

ok-check_entries :
    (seen l : List Text)
    → All Nonblank l
    → Distinct l
    → All (λ e. contains seen e ≡ false) l
    → check_entries seen l ≡ ok tt
unfolding check_entries
ok-check_entries seen [] hn hd hs = refl
ok-check_entries seen (entry ∷ l) hn hd hs =
    let others = All-zip (unseen_back seen entry) l hd.0 hs.1 in
    rw (hn.0, hs.0) (ok-check_entries (entry ∷ seen) l hn.1 hd.1 others)

check_proxy-IsProxy : (o : Option Text) → (check_proxy o ≡ ok tt) ↔ IsProxy o
unfolding check_proxy
check_proxy-IsProxy none = (λ _. tt, λ _. refl)
check_proxy-IsProxy (some proxy) = (λ h. ground arith, λ h. ground arith)

pub All-none_seen : (l : List Text) → All (λ e. contains [] e ≡ false) l
unfolding contains
All-none_seen [] = tt
All-none_seen (e ∷ l) = (refl, All-none_seen l)

-- A policy is accepted exactly if its proxy, where it has one, starts with http:// or https://, no entry of
-- the allowlist is blank, and no two entries are equal.
pub validate-IsPolicy : (p : NetworkPolicy) → (validate p ≡ ok tt) ↔ IsPolicy p
unfolding validate
validate-IsPolicy p = (
  λ h.
      let (_, accepted, entries) = >>=-eq-ok (check_proxy p.egress_proxy) _ h in
      let (nonblank, distinct, _) = check_entries-ok [] p.allowlist entries in
      record {
        proxy = (check_proxy-IsProxy p.egress_proxy).0 accepted;
        nonblank = nonblank;
        distinct = distinct;
      },
  λ h.
      rw ((check_proxy-IsProxy p.egress_proxy).1 h.proxy)
        (ok-check_entries [] p.allowlist h.nonblank h.distinct (All-none_seen p.allowlist)),
)
