-- ===== src/Storage/Layout/Laws.antt =====
-- The directories of environments and bases do not overlap.
use ipa_rs_agent_controller.Common.{
  String, ◌≡◌, refl, true, false, [], ◌∷◌, ◌++◌, arith, ◌==◌, list_eq, nat_eq,
}
use ipa_rs_agent_controller.Common.Lists.{append_assoc}
use ipa_rs_agent_controller.Common.Text.{Text, text, all_chars}
use ipa_rs_agent_controller.Path.{FilePath, normal, ◌/◌, path_starts_with, strip_path}
use ipa_rs_agent_controller.Path.Laws.{
  IsName, undotted-IsName, append_name, path_starts_with-below, strip_path-common,
}
use ipa_rs_agent_controller.Storage.Ids.{is_valid_id}
use ipa_rs_agent_controller.Storage.Ids.Laws.{is_valid_id-IsName}
use ipa_rs_agent_controller.Storage.Layout.{Layout, bases_dir, envs_dir, base_dir, env_dir}

bases-IsName : IsName (text "bases")
unfolding text all_chars
bases-IsName = undotted-IsName _ _ refl refl

envs-IsName : IsName (text "envs")
unfolding text all_chars
envs-IsName = undotted-IsName _ _ refl refl

envs_not_bases : (text "envs" == text "bases") ≡ false
unfolding text list_eq nat_eq
envs_not_bases = refl

two_names :
    (p : FilePath) (s t : Text)
    → IsName s
    → IsName t
    → (p / s) / t ≡ (p ++ (normal s ∷ [])) ++ (normal t ∷ [])
two_names p s t hs ht = rw (append_name p s hs, append_name (p ++ (normal s ∷ [])) t ht)

abbrev below : Layout → String → FilePath
below l name = l.agentfs ++ (normal (text name) ∷ [])

pub env_dir-names :
    (l : Layout) (id : Text)
    → is_valid_id id ≡ true
    → env_dir l id ≡ below l "envs" ++ (normal id ∷ [])
unfolding env_dir envs_dir
env_dir-names l id h = two_names l.agentfs (text "envs") id envs-IsName (is_valid_id-IsName id h).0

pub base_dir-names :
    (l : Layout) (id : Text)
    → is_valid_id id ≡ true
    → base_dir l id ≡ below l "bases" ++ (normal id ∷ [])
unfolding base_dir bases_dir
base_dir-names l id h =
    two_names l.agentfs (text "bases") id bases-IsName (is_valid_id-IsName id h).0

path_starts_with-other :
    (d p : FilePath) (a b c : Text)
    → (a == b) ≡ false
    → path_starts_with (d ++ (normal a ∷ p)) (d ++ (normal b ∷ normal c ∷ [])) ≡ false
unfolding path_starts_with strip_path
path_starts_with-other d p a b c h =
    rw (path_starts_with, strip_path-common d (normal a ∷ p) (normal b ∷ normal c ∷ []))
      (ground arith)

-- For valid ids, a path in the directory of one environment lies in the directory of another environment
-- only if both have the same id, and it lies in the directory of no base.
pub env_dir-separate :
    (l : Layout) (a b : Text) (p : FilePath)
    → is_valid_id a ≡ true
    → is_valid_id b ≡ true
    → (path_starts_with (env_dir l a ++ p) (env_dir l b) ≡ (a == b))
      × (path_starts_with (env_dir l a ++ p) (base_dir l b) ≡ false)
env_dir-separate l a b p ha hb = (
  rw (env_dir-names l a ha, env_dir-names l b hb, append_assoc (below l "envs") (normal a ∷ []) p)
      (path_starts_with-below (below l "envs") p a b),
  rw
      (
        env_dir-names l a ha,
        base_dir-names l b hb,
        append_assoc (below l "envs") (normal a ∷ []) p,
        append_assoc l.agentfs (normal (text "envs") ∷ []) (normal a ∷ p),
        append_assoc l.agentfs (normal (text "bases") ∷ []) (normal b ∷ []),
      )
      (path_starts_with-other l.agentfs (normal a ∷ p) (text "envs") (text "bases") b
        envs_not_bases),
)
