-- ===== src/OverlayFs/Requests/Pages.antt =====
-- Reading a directory page by page: the loop over the entries in `readdir` of
-- crates/agent-overlayfs/src/main.rs, as a caller with a buffer of bounded size sees it.
use ipa_rs_agent_controller.Common.{
  ℕ, suc, ◌+◌, ◌≤◌, ◌≡◌, refl, ap, ◌∙◌, sym, Bool, false, List, [], ◌∷◌, ◌++◌, arith, inl, inr,
  Bool-cases,
}
use ipa_rs_agent_controller.Common.Lists.{length, length-append, append_assoc, append-nil}
use ipa_rs_agent_controller.Common.Text.{Text}
use ipa_rs_agent_controller.Host.{FileType}
use ipa_rs_agent_controller.OverlayFs.Requests.{DirEntry, drop, fill, numbered}

-- The offset of the last entry of a page, from which the caller goes on.
unfoldable pub last_offset : ℕ → List DirEntry → ℕ
last_offset o [] = o
last_offset o (e ∷ l) = last_offset e.offset l

-- The pages that a caller reads one after the other, until one is empty or the fuel is used up.
unfoldable pub pages : ℕ → (List DirEntry → DirEntry → Bool) → List DirEntry → ℕ → List DirEntry
pages ℕ.zero full all o = []
pages (suc fuel) full all o =
    let page = fill full [] (drop all o) in page ++ pages fuel full all (last_offset o page)

-- Entries whose offsets count up from a number.
Numbered : ℕ → List DirEntry → Type 0
Numbered n [] = Unit
Numbered n (e ∷ l) = (e.offset ≡ n + 1) × Numbered (n + 1) l

numbered-Numbered : (n : ℕ) (l : List (ℕ × FileType × Text)) → Numbered n (numbered n l)
unfolding Numbered numbered
numbered-Numbered n [] = tt
numbered-Numbered n (x ∷ l) = (refl, numbered-Numbered (n + 1) l)

length-numbered : (n : ℕ) (l : List (ℕ × FileType × Text)) → length (numbered n l) ≡ length l
unfolding numbered
length-numbered n [] = refl
length-numbered n (x ∷ l) = ap suc (length-numbered (n + 1) l)

drop-append : (a b : List DirEntry) → drop (a ++ b) (length a) ≡ b
unfolding drop
drop-append [] [] = refl
drop-append [] (x ∷ b) = refl
drop-append (x ∷ a) b = drop-append a b

last_offset-Numbered :
    (n : ℕ) (a b : List DirEntry) → Numbered n (a ++ b) → last_offset n a ≡ n + length a
unfolding Numbered last_offset
last_offset-Numbered n [] b h = omega arith
last_offset-Numbered n (e ∷ a) b (at, h) = rw at (omega (arith, last_offset-Numbered (n + 1) a b h))

-- A page is a first part of the entries that are left.
fill-split :
    (full : List DirEntry → DirEntry → Bool) (got l : List DirEntry)
    → (a : List DirEntry) × (b : List DirEntry) × (fill full got l ≡ got ++ a) × (l ≡ a ++ b)
unfolding fill
fill-split full got [] = ([], [], ground (arith, append-nil got), refl)
fill-split full got (e ∷ l) =
    let (a, b, p, q) = fill-split full (got ++ (e ∷ [])) l in
    elim (Bool-cases (full got e)) [
      | inl t ↦ ([], e ∷ l, rw t (ground (arith, append-nil got)), refl)
      | inr f ↦ (e ∷ a, b, rw (f, p) (append_assoc got (e ∷ []) a), ap (λ r. e ∷ r) q)
    ]

Numbered-behind : (n : ℕ) (a b : List DirEntry) → Numbered n (a ++ b) → Numbered (n + length a) b
unfolding Numbered
Numbered-behind n [] b h = let same : n + 0 ≡ n = omega arith in rw same h
Numbered-behind n (e ∷ a) b (at, h) =
    let same : n + suc (length a) ≡ n + 1 + length a = omega arith in
    rw same (Numbered-behind (n + 1) a b h)

module _ (full : List DirEntry → DirEntry → Bool) (room : (e : DirEntry) → full [] e ≡ false) where
  -- A page of a buffer with room for one entry has the next entry.
  page-split :
      (e : DirEntry) (l : List DirEntry)
      → (a : List DirEntry) × (b : List DirEntry) × (fill full [] (e ∷ l) ≡ e ∷ a) × (l ≡ a ++ b)
  unfolding fill
  page-split e l = let (a, b, p, q) = fill-split full (e ∷ []) l in (a, b, rw (room e) p, q)

  pages-page :
      (fuel : ℕ) (before a b : List DirEntry)
      → fill full [] (a ++ b) ≡ a
      → Numbered 0 (before ++ (a ++ b))
      → pages fuel full ((before ++ a) ++ b) (length (before ++ a)) ≡ b
      → pages (suc fuel) full (before ++ (a ++ b)) (length before) ≡ a ++ b
  unfolding pages
  pages-page fuel before a b p h ih =
      let zero_add : 0 + length before ≡ length before = omega arith in
      let at : Numbered (length before) (a ++ b) =
        rw (← zero_add) (Numbered-behind 0 before (a ++ b) h) in
      let next : last_offset (length before) a ≡ length (before ++ a) =
        last_offset-Numbered (length before) a b at ∙ sym (length-append before a) in
      rw (drop-append before (a ++ b), p, next, ← append_assoc before a b) (ap (λ l. a ++ l) ih)

  pages-rest :
      (fuel : ℕ) (before rest : List DirEntry)
      → Numbered 0 (before ++ rest)
      → length rest ≤ fuel
      → pages fuel full (before ++ rest) (length before) ≡ rest
  unfolding pages fill last_offset
  pages-rest ℕ.zero before [] h enough = refl
  pages-rest ℕ.zero before (e ∷ rest) h enough = absurd (omega arith)
  pages-rest (suc fuel) before [] h enough =
      rw (drop-append before []) (pages-rest fuel before [] h (omega arith))
  pages-rest (suc fuel) before (e ∷ rest) h enough =
      let (a, b, p, q) = page-split e rest in
      let split : Numbered 0 (before ++ (e ∷ (a ++ b))) = rw (← q) h in
      let behind : Numbered 0 ((before ++ (e ∷ a)) ++ b) =
        rw (append_assoc before (e ∷ a) b) split in
      let shorter : length b ≤ fuel = omega (arith, ap length q, length-append a b) in
      rw q (
        pages-page fuel before (e ∷ a) b (rw (← q) p) split
          (pages-rest fuel (before ++ (e ∷ a)) b behind shorter))

-- Where the buffer of a caller has room for at least one entry, the pages that the caller reads one after
-- the other, each from the offset of the last entry before it, are together all entries of the directory,
-- each once and in order, after at most as many requests as there are entries; `readdir` never skips an entry or
-- stops before the end.
pub pages-numbered :
    (full : List DirEntry → DirEntry → Bool) (l : List (ℕ × FileType × Text)) (fuel : ℕ)
    → ((e : DirEntry) → full [] e ≡ false)
    → length l ≤ fuel
    → pages fuel full (numbered 0 l) 0 ≡ numbered 0 l
pages-numbered full l fuel room enough =
    pages-rest full room fuel [] (numbered 0 l) (numbered-Numbered 0 l)
      (omega (arith, length-numbered 0 l))
