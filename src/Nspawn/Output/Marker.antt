-- ===== src/Nspawn/Output/Marker.antt =====
-- The marker behind which `exec` finds the status of its command.
use Prim.Native.Nat.{◌-◌}
use mathlib.Core.List.{reverse, reverse_aux, reverse-reverse}
use ipa_rs_agent_controller.Common.{
  ℕ, zero, suc, ◌+◌, ◌*◌, ◌/◌, ◌%◌, ◌<◌, ◌≤◌, ◌≡◌, refl, sym, ap, ◌∙◌, Bool, true, false, not, ◌&&◌,
  none, some, [], ◌∷◌, ◌++◌, arith, eqb, ltb, Bool-cases, inl, inr,
}
use ipa_rs_agent_controller.Common.Lists.{append_assoc, append-nil}
use ipa_rs_agent_controller.Common.Text.{
  Text, text, trim, trim_start, trim_end, is_whitespace, all_chars, strip_prefix, rsplit_once,
  span_until, is_ascii_digit, show, show_digits,
}
use ipa_rs_agent_controller.Host.{nonneg}
use ipa_rs_agent_controller.Nspawn.Output.{
  i32_digits, to_nonneg, parse_i32, marker, parse_child_exit_status,
}

all_chars-append :
    (p : ℕ → Bool) (s t : Text) → all_chars p (s ++ t) ≡ (all_chars p s && all_chars p t)
unfolding all_chars
all_chars-append p [] t = refl
all_chars-append p (c ∷ s) t = ground (arith, all_chars-append p s t)

show_digits-digits : (fuel n : ℕ) → all_chars is_ascii_digit (show_digits fuel n) ≡ true
unfolding show_digits all_chars is_ascii_digit
show_digits-digits zero n = refl
show_digits-digits (suc fuel) n = ground (
  arith,
  show_digits-digits fuel (n / 10),
  all_chars-append is_ascii_digit (show_digits fuel (n / 10)) ((b'0' + n % 10) ∷ []),
)

-- The digits before the last one make a number below the bound.
i32_digits-snoc :
    (bound acc n d : ℕ) (s : Text)
    → i32_digits bound acc s ≡ some n
    → d < 10
    → n * 10 + d < bound
    → i32_digits bound acc (s ++ ((b'0' + d) ∷ [])) ≡ some (n * 10 + d)
unfolding i32_digits is_ascii_digit
i32_digits-snoc bound acc n d [] h hd hb = ground arith
i32_digits-snoc bound acc n d (c ∷ s) h hd hb =
    ground (arith, i32_digits-snoc bound (10 * acc + (c - b'0')) n d s)

i32_digits-show :
    (bound fuel n : ℕ) → n < fuel → n < bound → i32_digits bound 0 (show_digits fuel n) ≡ some n
unfolding show_digits i32_digits
i32_digits-show bound zero n hf hb = absurd (omega arith)
i32_digits-show bound (suc fuel) n hf hb = elim (Bool-cases (ltb n 10)) [
  | inl one ↦
      let small : n < 10 = ground arith in
      let empty : i32_digits bound 0 [] ≡ some 0 = refl in
      let same : 0 * 10 + n ≡ n = omega arith in
      rw one (i32_digits-snoc bound 0 0 n [] empty small (omega arith) ∙ ap some same)
  | inr more ↦
      let large : 10 ≤ n = ground arith in
      let whole : n / 10 * 10 + n % 10 ≡ n = omega arith in
      let before = i32_digits-show bound fuel (n / 10) (omega arith) (omega arith) in
      let last : n / 10 * 10 + n % 10 < bound = omega arith in
      rw more (
        i32_digits-snoc bound 0 (n / 10) (n % 10) (show_digits fuel (n / 10)) before (omega arith)
          last
        ∙ ap some whole)
]

-- A nonempty text of digits.
abbrev digits : Text → Bool
digits s = all_chars is_ascii_digit s

reverse-digits :
    (s acc : Text) → digits s ≡ true → digits acc ≡ true → digits (reverse_aux s acc) ≡ true
unfolding all_chars
reverse-digits [] acc hs ha = ha
reverse-digits (c ∷ s) acc hs ha = reverse-digits s (c ∷ acc) (ground arith) (ground arith)

trim_start-digits : (s : Text) → digits s ≡ true → trim_start s ≡ s
unfolding trim_start all_chars is_whitespace is_ascii_digit
trim_start-digits [] h = refl
trim_start-digits (c ∷ s) h = let solid : is_whitespace c ≡ false = ground arith in rw solid

trim-digits : (s : Text) → digits s ≡ true → trim s ≡ s
unfolding trim trim_end all_chars
trim-digits s h =
    rw (trim_start-digits s h, trim_start-digits (reverse s) (reverse-digits s [] h refl))
      (reverse-reverse s)

parse_i32-digits :
    (c : ℕ) (s : Text) (n : ℕ)
    → digits (c ∷ s) ≡ true
    → i32_digits 2147483648 0 (c ∷ s) ≡ some n
    → parse_i32 (c ∷ s) ≡ some (nonneg n)
unfolding parse_i32 all_chars is_ascii_digit to_nonneg
parse_i32-digits c [] n h e = rw e
parse_i32-digits c (d ∷ s) n h e =
    let no_minus : eqb c b'-' ≡ false = ground arith in
    let no_plus : eqb c b'+' ≡ false = ground arith in rw (no_minus, no_plus, e)

snoc-nonempty : (s : Text) (d : ℕ) → (c : ℕ) × (t : Text) × (s ++ (d ∷ []) ≡ c ∷ t)
snoc-nonempty [] d = (d, [], refl)
snoc-nonempty (c ∷ s) d = (c, s ++ (d ∷ []), refl)

show_digits-nonempty : (fuel n : ℕ) → (c : ℕ) × (s : Text) × (show_digits (suc fuel) n ≡ c ∷ s)
unfolding show_digits
show_digits-nonempty fuel n = elim (Bool-cases (ltb n 10)) [
  | inl one ↦ (b'0' + n, [], rw one)
  | inr more ↦
      let (c, s, e) = snoc-nonempty (show_digits fuel (n / 10)) (b'0' + n % 10) in (c, s, rw more e)
]

span_until-digits :
    (s t : Text) → digits s ≡ true → (span_until (λ c. eqb c b'\n') (s ++ (b'\n' ∷ t))).0 ≡ s
unfolding span_until all_chars is_ascii_digit
span_until-digits [] t h = refl
span_until-digits (c ∷ s) t h = ground (arith, span_until-digits s t)

strip_prefix-append : (p s : Text) → strip_prefix (p ++ s) p ≡ some s
unfolding strip_prefix
strip_prefix-append [] s = refl
strip_prefix-append (c ∷ p) s = ground (arith, strip_prefix-append p s)

-- What stands before an occurrence plays no part in where the last one is.
rsplit_once-append :
    (x t p a b : Text) → rsplit_once t p ≡ some (a, b) → rsplit_once (x ++ t) p ≡ some (x ++ a, b)
unfolding rsplit_once
rsplit_once-append [] t p a b h = h
rsplit_once-append (c ∷ x) t p a b h = rw (rsplit_once-append x t p a b h)

abbrev one_line : Text → Bool
one_line s = all_chars (λ c. not (eqb c b'\n')) s

rsplit_once-one_line :
    (s : Text) → one_line s ≡ true → rsplit_once (s ++ (b'\n' ∷ [])) marker ≡ none
unfolding rsplit_once marker text strip_prefix all_chars
rsplit_once-one_line [] h = refl
rsplit_once-one_line (c ∷ s) h =
    let ih = rsplit_once-one_line s (ground arith) in
    let other : eqb c b'\n' ≡ false = ground arith in rw (ih, other)

digits-one_line : (s : Text) → digits s ≡ true → one_line s ≡ true
unfolding all_chars is_ascii_digit
digits-one_line [] h = refl
digits-one_line (c ∷ s) h = ground (arith, digits-one_line s)

rsplit_once-last :
    (c : ℕ) (m t : Text)
    → rsplit_once (m ++ t) (c ∷ m) ≡ none
    → rsplit_once (c ∷ (m ++ t)) (c ∷ m) ≡ some ([], t)
unfolding rsplit_once
rsplit_once-last c m t h = rw (rsplit_once, h, strip_prefix-append (c ∷ m) t)

abbrev marker_name : Text
marker_name = text "__AGENT_FORKD_EXIT:"

marker-parts : marker ≡ b'\n' ∷ marker_name
unfolding marker text
marker-parts = refl

marker_name-one_line : one_line marker_name ≡ true
unfolding text all_chars
marker_name-one_line = refl

rsplit_once-marker :
    (s : Text)
    → digits s ≡ true
    → rsplit_once (marker ++ (s ++ (b'\n' ∷ []))) marker ≡ some ([], s ++ (b'\n' ∷ []))
rsplit_once-marker s h =
    let line : one_line (marker_name ++ s) ≡ true = rw (
      all_chars-append (λ c. not (eqb c b'\n')) marker_name s,
      marker_name-one_line,
      digits-one_line s h,
    ) in
    let no_more = rsplit_once-one_line (marker_name ++ s) line in
    let t = s ++ (b'\n' ∷ []) in
    let same : (marker_name ++ s) ++ (b'\n' ∷ []) ≡ marker_name ++ t =
      append_assoc marker_name s (b'\n' ∷ []) in
    let none_after : rsplit_once (marker_name ++ t) (b'\n' ∷ marker_name) ≡ none =
      rw (sym same, sym marker-parts) no_more in
    rw marker-parts (rsplit_once-last b'\n' marker_name t none_after)

show-digits : (n : ℕ) → digits (show n) ≡ true
unfolding show
show-digits n = show_digits-digits (suc n) n

parse_i32-show : (n : ℕ) → n < 2147483648 → parse_i32 (show n) ≡ some (nonneg n)
unfolding show
parse_i32-show n h =
    let (c, t, e) = show_digits-nonempty n n in
    let all_digits : digits (c ∷ t) ≡ true = rw (sym e) (show_digits-digits (suc n) n) in
    let value : i32_digits 2147483648 0 (c ∷ t) ≡ some n =
      rw (sym e) (i32_digits-show 2147483648 (suc n) n (omega arith) h) in
    ap parse_i32 e ∙ parse_i32-digits c t n all_digits value

-- For every text that a command prints, also one with the marker in it, and every status below 2 ^ 31: behind
-- the marker and before a newline the status is found again, and the text before the last marker is what
-- the command printed.
pub parse_child_exit_status-marker :
    (printed : Text) (n : ℕ)
    → n < 2147483648
    → parse_child_exit_status (printed ++ (marker ++ (show n ++ (b'\n' ∷ []))))
      ≡ some (nonneg n, printed)
unfolding parse_child_exit_status
parse_child_exit_status-marker printed n h =
    let line = b'\n' ∷ [] in
    let split =
      rsplit_once-append printed (marker ++ (show n ++ line)) marker [] (show n ++ line)
        (rsplit_once-marker (show n) (show-digits n)) in
    rw (
      parse_child_exit_status,
      split,
      span_until-digits (show n) [] (show-digits n),
      trim-digits (show n) (show-digits n),
      parse_i32-show n h,
      append-nil printed,
    )
