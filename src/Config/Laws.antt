-- ===== src/Config/Laws.antt =====
-- What a configuration that is accepted looks like.
use ipa_rs_agent_controller.Common.{
  ◌≡◌, refl, sym, true, false, not, some, List, [], ◌∷◌, ◌++◌, arith,
}
use ipa_rs_agent_controller.Common.{
  Result, ok, err, panic, context, ensure, contains, list_eq, nat_eq, ◌==◌, >>=-eq-ok, Bool-cases,
  inl, inr,
}
use ipa_rs_agent_controller.Common.Lists.{All, All-map, Distinct}
use ipa_rs_agent_controller.Common.Text.{Text, text}
use ipa_rs_agent_controller.Model.Limit
use ipa_rs_agent_controller.Model.Limit.{Floats}
use ipa_rs_agent_controller.Model.Policy
use ipa_rs_agent_controller.Model.Policy.Laws.{IsPolicy, validate-IsPolicy, unseen}
use ipa_rs_agent_controller.Storage.Ids.{is_valid_id, validate_id}
use ipa_rs_agent_controller.Config.{
  Profile, AgentConfig, check_profile, check_profiles, validate, profile, find_profile,
}

context-ok {ℓ} : {A : Type ℓ} (c : Text) (r : Result A) (a : A) → context c r ≡ ok a → r ≡ ok a
unfolding context
context-ok c (ok b) a h = h
context-ok c (err e) a h = cc
context-ok c (panic e) a h = cc

abbrev pub names_of : List Profile → List Text
names_of [] = []
names_of (p ∷ ps) = p.name ∷ names_of ps

module _ (F : Floats) where
  -- What `validate` has checked of one profile.
  pub record IsProfile (p : Profile) : Type 0 where
    pub valid_name : is_valid_id p.name ≡ true
    pub valid_limits : Limit.validate F p.limits ≡ ok tt
    pub valid_policy : IsPolicy p.network_policy

  check_profile-ok :
      (names : List Text) (p : Profile)
      → check_profile F names p ≡ ok tt
      → IsProfile p × (contains names p.name ≡ false)
  unfolding check_profile validate_id
  check_profile-ok names p h =
      let (_, named, h₁) =
        >>=-eq-ok (context (text "invalid profile " ++ p.name) (validate_id p.name)) _ h in
      let (_, fresh, h₂) =
        >>=-eq-ok (ensure (not (contains names p.name)) (text "duplicate profile " ++ p.name)) _
          h₁ in
      let (_, limited, h₃) =
        >>=-eq-ok
          (context (text "invalid limits for profile " ++ p.name) (Limit.validate F p.limits)) _
          h₂ in
      let good_name = context-ok _ (validate_id p.name) tt named in
      let good_limits = context-ok _ (Limit.validate F p.limits) tt limited in
      let good_policy = context-ok _ (Policy.validate p.network_policy) tt h₃ in
      (
        record {
          valid_name = ground arith;
          valid_limits = good_limits;
          valid_policy = (validate-IsPolicy p.network_policy).0 good_policy;
        },
        ground arith,
      )

  -- A name that only the rest of the list has is found there; the first profile's own name is found at once.
  found_next :
      (seen : List Text) (p : Profile) (ps : List Profile) (names : List Text) (n : Text)
      → (contains (p.name ∷ seen) n ≡ false → (q : Profile) × (find_profile n ps ≡ some q))
      → contains seen n ≡ false
      → (q : Profile) × (find_profile n (p ∷ ps) ≡ some q)
  unfolding find_profile contains
  found_next seen p ps names n finds l = elim (Bool-cases (p.name == n)) [
    | inl same ↦ (p, rw same)
    | inr other ↦ let (q, e) = finds (ground arith) in (q, rw other e)
  ]

  find_profile-IsProfile :
      (n : Text) (ps : List Profile) (p : Profile)
      → All IsProfile ps
      → find_profile n ps ≡ some p
      → IsProfile p × (p.name ≡ n)
  unfolding find_profile
  find_profile-IsProfile n [] p h e = absurd (ground arith)
  find_profile-IsProfile n (q ∷ ps) p h e = elim (Bool-cases (q.name == n)) [
    | inl same ↦
        let named : q.name ≡ n = ground arith in
        let found : q ≡ p = ground arith in rw (sym found) (h.0, named)
    | inr other ↦ find_profile-IsProfile n ps p h.1 (ground arith)
  ]

  check_profiles-ok :
      (seen : List Text) (ps : List Profile) (names : List Text)
      → check_profiles F seen ps ≡ ok names
      → All IsProfile ps
        × Distinct (names_of ps)
        × All (λ n. contains seen n ≡ false) (names_of ps)
        × ((n : Text)
            → contains names n ≡ true
            → contains seen n ≡ false
            → (p : Profile) × (find_profile n ps ≡ some p))
  unfolding check_profiles find_profile
  check_profiles-ok seen [] names h = (tt, tt, tt, λ n k l. absurd (ground arith))
  check_profiles-ok seen (p ∷ ps) names h =
      let (_, good, h₁) = >>=-eq-ok (check_profile F seen p) _ h in
      let (profiles, distinct, fresh, finds) = check_profiles-ok (p.name ∷ seen) ps names h₁ in
      let (good_p, fresh_p) = check_profile-ok seen p good in
      (
        (good_p, profiles),
        (All-map (λ n k. (unseen seen p.name n k).0) (names_of ps) fresh, distinct),
        (fresh_p, All-map (λ n k. (unseen seen p.name n k).1) (names_of ps) fresh),
        λ n k l. found_next seen p ps names n (finds n k) l,
      )

  -- In a configuration that is accepted every profile is valid (its name, its limits and its policy), no two
  -- profiles have the same name, and the default profile is one of them.
  pub validate-ok :
      (c : AgentConfig)
      → validate F c ≡ ok tt
      → All IsProfile c.profiles
        × Distinct (names_of c.profiles)
        × ((p : Profile) × (profile c c.default_profile ≡ some p)
            × (p.name ≡ c.default_profile)
            × IsProfile p)
  unfolding validate profile contains
  validate-ok c h =
      let (_, _, h₁) =
        >>=-eq-ok
          (context (text "invalid default_profile " ++ c.default_profile)
            (validate_id c.default_profile))
          _ h in
      let (names, good, h₂) = >>=-eq-ok (check_profiles F [] c.profiles) _ h₁ in
      let (profiles, distinct, _, finds) = check_profiles-ok [] c.profiles names good in
      let (p, found) = finds c.default_profile (ground arith) refl in
      let (valid, named) = find_profile-IsProfile c.default_profile c.profiles p profiles found in
      (profiles, distinct, (p, found, named, valid))
