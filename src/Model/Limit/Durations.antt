-- ===== src/Model/Limit/Durations.antt =====
-- What `duration_limit` accepts, and where it panics.
use ipa_rs_agent_controller.Common.{
  ℕ, ◌≡◌, refl, sym, ◌⊎◌, inl, inr, Bool, true, false, not, Option, none, some, [], ◌∷◌, ◌++◌,
  arith,
}
use ipa_rs_agent_controller.Common.{
  ok, panic, ensure, ok_or, contains, list_eq, nat_eq, Option-cases, >>=-eq-ok,
}
use ipa_rs_agent_controller.Common.Text.{
  Text, text, trim, to_ascii_lowercase, is_empty, starts_with, span_until, all_chars,
  is_ascii_alphabetic,
}
use ipa_rs_agent_controller.Model.Limit.{
  Floats, split_number_unit, duration_units, validate_positive_decimal, unit_seconds,
  duration_limit, duration_of, not_positive, from_secs_f64,
}

span_until_lem :
    (p : ℕ → Bool) (s : Text)
    → ((span_until p s).0 ++ (span_until p s).1 ≡ s)
      × (all_chars (λ c. not (p c)) (span_until p s).0 ≡ true)
unfolding span_until all_chars
span_until_lem p [] = (refl, refl)
span_until_lem p (c ∷ s) = ground (arith, span_until_lem p s)

-- The text is cut before its first letter: a number without letters, and a unit of letters alone.
pub split_number_unit_lem :
    (w number unit : Text)
    → split_number_unit w ≡ some (number, unit)
    → (number ++ unit ≡ w)
      × (all_chars (λ c. not (is_ascii_alphabetic c)) number ≡ true)
      × (all_chars is_ascii_alphabetic unit ≡ true)
      × (is_empty number ≡ false)
      × (is_empty unit ≡ false)
unfolding split_number_unit
split_number_unit_lem w number unit h = ground (arith, span_until_lem is_ascii_alphabetic w)

module _ (F : Floats) where
  open F use {F64, parse, le_zero, times, from_secs, from_std}

  not_positive_lem :
      (o : Option F64) → not_positive F o ≡ false → (x : F64) × (o ≡ some x) × (le_zero x ≡ false)
  unfolding not_positive
  not_positive_lem none h = cc
  not_positive_lem (some x) h = (x, refl, h)

  -- A text that `validate_positive_decimal` accepts is a number above zero, and does not start with `-`.
  validate_positive_decimal_lem :
      (name value : Text)
      → validate_positive_decimal F name value ≡ ok tt
      → (not_positive F (parse value) ≡ false) × (starts_with value (text "-") ≡ false)
  unfolding validate_positive_decimal
  validate_positive_decimal_lem name value h = ground arith

  -- The seconds that a number with a unit stands for; the unit is in lower case.
  pub data Seconds (x : F64) (u : Text) (y : F64) : Type 0 where
    second : (u ≡ text "s") ⊎ (u ≡ text "sec") → y ≡ x → Seconds x u y
    minute : (u ≡ text "m") ⊎ (u ≡ text "min") → y ≡ times x 60 → Seconds x u y
    hour : (u ≡ text "h") ⊎ (u ≡ text "hr") → y ≡ times (times x 60) 60 → Seconds x u y
    day : (u ≡ text "d") ⊎ (u ≡ text "day") → y ≡ times (times (times x 60) 60) 24 → Seconds x u y

  unit_seconds_lem : (u : Text) (x y : F64) → unit_seconds F u x ≡ ok y → Seconds x u y
  unfolding unit_seconds
  unit_seconds_lem u x y h = ground arith

  duration_of_lem :
      (name number unit : Text) (d : ℕ)
      → duration_of F name number unit ≡ ok (some d)
      → (x y : F64) × (n : ℕ) × (parse number ≡ some x)
        × (le_zero x ≡ false)
        × Seconds x (to_ascii_lowercase unit) y
        × (from_secs y ≡ some n)
        × (from_std n ≡ some d)
  unfolding duration_of validate_positive_decimal not_positive
  duration_of_lem name number unit d h =
      let (_, known, h₁) =
        >>=-eq-ok
          (ensure (contains duration_units (to_ascii_lowercase unit))
            (name ++ (text " has unsupported unit " ++ unit)))
          _ h in
      let (_, positive, h₂) = >>=-eq-ok (validate_positive_decimal F name number) _ h₁ in
      let (x, px, h₃) = >>=-eq-ok (ok_or (name ++ text " must be positive") (parse number)) _ h₂ in
      let (y, sy, h₄) = >>=-eq-ok (unit_seconds F (to_ascii_lowercase unit) x) _ h₃ in
      let (n, fn, h₅) = >>=-eq-ok (from_secs_f64 F y) _ h₄ in
      let (d', dn, h₆) =
        >>=-eq-ok (ok_or (name ++ text " duration is too large") (from_std n)) _ h₅ in
      (x, y, n, ground arith, ground arith, unit_seconds_lem _ x y sy, ground arith, ground arith)

  Seconds-unit_seconds : (x : F64) (u : Text) (y : F64) → Seconds x u y → unit_seconds F u x ≡ ok y
  unfolding unit_seconds text list_eq nat_eq
  Seconds-unit_seconds x u y (second (inl e) k) = rw (e, k)
  Seconds-unit_seconds x u y (second (inr e) k) = rw (e, k)
  Seconds-unit_seconds x u y (minute (inl e) k) = rw (e, k)
  Seconds-unit_seconds x u y (minute (inr e) k) = rw (e, k)
  Seconds-unit_seconds x u y (hour (inl e) k) = rw (e, k)
  Seconds-unit_seconds x u y (hour (inr e) k) = rw (e, k)
  Seconds-unit_seconds x u y (day (inl e) k) = rw (e, k)
  Seconds-unit_seconds x u y (day (inr e) k) = rw (e, k)

  duration_of_panics :
      (name number unit : Text) (x y : F64)
      → contains duration_units (to_ascii_lowercase unit) ≡ true
      → validate_positive_decimal F name number ≡ ok tt
      → parse number ≡ some x
      → unit_seconds F (to_ascii_lowercase unit) x ≡ ok y
      → from_secs y ≡ none
      → duration_of F name number unit ≡ panic (text "Duration::from_secs_f64")
  unfolding duration_of
  duration_of_panics name number unit x y known positive px sy none_y =
      rw (known, positive, px, sy) (ground arith)

  -- A duration that is accepted is a number without letters, above zero, and a unit of letters alone; its
  -- length is the number times 1, 60, 60 * 60 or 60 * 60 * 24 seconds by the unit, in any case of letters.
  pub duration_limit-eq-some :
      (name value : Text) (d : ℕ)
      → duration_limit F name value ≡ ok (some d)
      → (number unit : Text) × (x y : F64) × (n : ℕ) × (trim value ≡ number ++ unit)
        × (all_chars (λ c. not (is_ascii_alphabetic c)) number ≡ true)
        × (all_chars is_ascii_alphabetic unit ≡ true)
        × (parse number ≡ some x)
        × (le_zero x ≡ false)
        × Seconds x (to_ascii_lowercase unit) y
        × (from_secs y ≡ some n)
        × (from_std n ≡ some d)
  unfolding duration_limit
  duration_limit-eq-some name value d h = elim (Option-cases (split_number_unit (trim value))) [
    | inl none_found ↦ absurd (ground arith)
    | inr ((number, unit), found) ↦
        let parts = split_number_unit_lem (trim value) number unit found in
        let of : duration_of F name number unit ≡ ok (some d) = ground arith in
        let (x, y, n, px, zx, sy, fn, dn) = duration_of_lem name number unit d of in
        (number, unit, x, y, n, sym parts.0, parts.1, parts.2, px, zx, sy, fn, dn)
  ]
