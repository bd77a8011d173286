-- ===== src/OverlayFs/Inodes/Inverse.antt =====
-- Every path has one inode and every inode one path.
use ipa_rs_agent_controller.Common.{
  ℕ, ◌+◌, ◌%◌, ◌<◌, ◌≤◌, ◌≡◌, ap, ◌⊎◌, inl, inr, none, some, List, [], ◌∷◌, arith, list_eq, nat_eq,
  Option-cases,
}
use ipa_rs_agent_controller.Common.Lists.{length}
use ipa_rs_agent_controller.Common.Dict.{lookup}
use ipa_rs_agent_controller.Path.{FilePath, component_eq}
use ipa_rs_agent_controller.OverlayFs.Fallback.{root}
use ipa_rs_agent_controller.OverlayFs.Inodes.{
  InodeTable, root_ino, max, add_path, add_new, intern, path_of,
}

-- The two maps are inverse to each other, the root has its own inode, the others lie below `next`, and
-- `next` is no more than the number of paths and one.
pub record IsTable (t : InodeTable) : Type 0 where
  pub to_path : (p : FilePath) (i : ℕ) → lookup p t.by_path ≡ some i → lookup i t.by_ino ≡ some p
  pub to_ino : (i : ℕ) (p : FilePath) → lookup i t.by_ino ≡ some p → lookup p t.by_path ≡ some i
  pub below : (i : ℕ) (p : FilePath) → lookup i t.by_ino ≡ some p → (i ≡ root_ino) ⊎ (i < t.next)
  pub rooted : lookup root t.by_path ≡ some root_ino
  pub counted : t.next ≤ length t.by_path + 1

module _ (t : InodeTable) (p : FilePath) (v : IsTable t) (room : t.next < 18446744073709551615)
    (new_path : lookup p t.by_path ≡ none) where
  abbrev fresh : ℕ
  fresh = max t.next (root_ino + 1)

  abbrev added : InodeTable
  added = add_path t p fresh ((fresh + 1) % 18446744073709551616)

  fresh-unused : (q : FilePath) → lookup fresh t.by_ino ≡ some q → ⊥
  fresh-unused q e = ground (arith, v.below fresh q e)

  module _ (q : FilePath) (i : ℕ) where
    added-to_path : lookup q added.by_path ≡ some i → lookup i added.by_ino ≡ some q
    unfolding add_path lookup list_eq nat_eq
    added-to_path e = ground (arith, v.to_path q i, fresh-unused q)

    added-to_ino : lookup i added.by_ino ≡ some q → lookup q added.by_path ≡ some i
    unfolding add_path lookup list_eq nat_eq
    added-to_ino e = ground (arith, v.to_ino i q, v.to_ino i p)

    added-below : lookup i added.by_ino ≡ some q → (i ≡ root_ino) ⊎ (i < added.next)
    unfolding add_path lookup nat_eq
    added-below e = ground (arith, v.below i q)

  not_root : ¬ (p ≡ root)
  not_root e = ground (arith, v.rooted, ap (λ q. lookup q t.by_path) e)

  some_path : (l : List (FilePath × ℕ)) → lookup root l ≡ some root_ino → 0 < length l
  unfolding lookup
  some_path [] h = absurd cc
  some_path (x ∷ l) h = omega arith

  added-counted : added.next ≤ length added.by_path + 1
  unfolding add_path
  added-counted = ground (arith, v.counted, some_path t.by_path v.rooted)

  added-IsTable : IsTable added
  unfolding add_path lookup list_eq
  added-IsTable = record {
    to_path = λ q i e. added-to_path q i e;
    to_ino = λ i q e. added-to_ino q i e;
    below = λ i q e. added-below q i e;
    rooted = ground (arith, v.rooted, not_root);
    counted = added-counted;
  }

  added-path_of : path_of added fresh ≡ some p
  unfolding add_path path_of lookup nat_eq
  added-path_of = ground arith

  added-keeps : (i : ℕ) (q : FilePath) → path_of t i ≡ some q → path_of added i ≡ some q
  unfolding add_path path_of lookup nat_eq
  added-keeps i q e = ground (arith, fresh-unused q)

  added-intern : intern added p ≡ (fresh, added)
  unfolding add_path intern lookup list_eq
  added-intern = ground arith

  intern-new : intern t p ≡ (fresh, added)
  unfolding intern add_new
  intern-new = ground (arith, not_root)

-- What `intern` promises of its number and of the table it leaves.
pub record Interned (p : FilePath) (r : ℕ × InodeTable) : Type 0 where
  pub valid : IsTable r.1
  pub found : path_of r.1 r.0 ≡ some p
  pub again : intern r.1 p ≡ r

intern-known :
    (t : InodeTable) (p : FilePath) (i : ℕ) → lookup p t.by_path ≡ some i → intern t p ≡ (i, t)
unfolding intern
intern-known t p i e = ground arith

-- In a valid table (its two maps are inverse to each other, the root has inode 1, the other inodes lie below
-- `next`) that has used up fewer than 2 ^ 64 - 1 numbers, `intern` of any path returns an inode from which
-- the table it leaves leads back to that path; that table is valid, and a second `intern` of the path
-- returns the same inode and changes nothing.
pub intern-Interned :
    (t : InodeTable) (p : FilePath)
    → IsTable t
    → t.next < 18446744073709551615
    → Interned p (intern t p)
unfolding path_of
intern-Interned t p v room = elim (Option-cases (lookup p t.by_path)) [
  | inl e ↦ rw (intern-new t p v room e) record {
    valid = added-IsTable t p v room e;
    found = added-path_of t p v room e;
    again = added-intern t p v room e;
  }
  | inr (i, e) ↦
      rw (intern-known t p i e)
        record { valid = v; found = v.to_path p i e; again = intern-known t p i e }
]

intern-kept :
    (t : InodeTable) (p : FilePath) (i : ℕ) (q : FilePath)
    → IsTable t
    → t.next < 18446744073709551615
    → path_of t i ≡ some q
    → path_of (intern t p).1 i ≡ some q
intern-kept t p i q v room h = elim (Option-cases (lookup p t.by_path)) [
  | inl e ↦ rw (intern-new t p v room e) (added-keeps t p v room e i q h)
  | inr (j, e) ↦ rw (intern-known t p j e) h
]

-- What a table still has in a later one: every inode leads to the same path, unless the paths use up the
-- numbers of 64 bits.
pub record Grown (t u : InodeTable) : Type 0 where
  pub more : length t.by_path ≤ length u.by_path
  pub stable :
      IsTable t
      → length u.by_path < 18446744073709551614
      → IsTable u × ((i : ℕ) (q : FilePath) → path_of t i ≡ some q → path_of u i ≡ some q)

pub grown_refl : (t : InodeTable) → Grown t t
grown_refl t = record { more = omega arith; stable = λ v h. (v, λ i q e. e) }

pub grown_trans : (t u w : InodeTable) → Grown t u → Grown u w → Grown t w
grown_trans t u w g k = record {
  more = omega (arith, g.more, k.more);
  stable = λ v h.
      let (v1, keeps1) = g.stable v (omega (arith, k.more)) in
      let (v2, keeps2) = k.stable v1 h in (v2, λ i q e. keeps2 i q (keeps1 i q e));
}

intern-length : (t : InodeTable) (p : FilePath) → length t.by_path ≤ length (intern t p).1.by_path
unfolding intern add_new add_path
intern-length t p = ground arith

pub intern-Grown : (t : InodeTable) (p : FilePath) → Grown t (intern t p).1
intern-Grown t p = record {
  more = intern-length t p;
  stable = λ v h.
      let room : t.next < 18446744073709551615 = omega (arith, v.counted, intern-length t p) in
      ((intern-Interned t p v room).valid, λ i q e. intern-kept t p i q v room e);
}
