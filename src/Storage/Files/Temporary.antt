-- ===== src/Storage/Files/Temporary.antt =====
-- The temporary file beside a file has another path.
use ipa_rs_agent_controller.Common.{
  ℕ, zero, suc, ◌%◌, ◌/◌, ◌+◌, ◌≤◌, ◌≡◌, ◌≢◌, refl, sym, ap, ◌∙◌, true, [], ◌∷◌, ◌++◌, arith,
}
use ipa_rs_agent_controller.Common.Lists.{length, length-append, snoc-injective}
use ipa_rs_agent_controller.Common.Text.{Text, text, show, show_digits, all_chars}
use ipa_rs_agent_controller.Path.{FilePath, Component, normal}
use ipa_rs_agent_controller.Path.Laws.{IsName, no_slash, with_file_name-snoc, file_name-snoc}
use ipa_rs_agent_controller.Storage.Files.{tmp_name, or_metadata}

pub no_slash-append :
    (s t : Text) → no_slash s ≡ true → no_slash t ≡ true → no_slash (s ++ t) ≡ true
unfolding all_chars
no_slash-append [] t hs ht = ht
no_slash-append (c ∷ s) t hs ht = ground (arith, no_slash-append s t)

no_slash-show_digits : (fuel n : ℕ) → no_slash (show_digits fuel n) ≡ true
unfolding show_digits all_chars
no_slash-show_digits zero n = refl
no_slash-show_digits (suc fuel) n =
    let last : no_slash ((b'0' + n % 10) ∷ []) ≡ true = ground arith in
    let whole =
      no_slash-append (show_digits fuel (n / 10)) ((b'0' + n % 10) ∷ [])
        (no_slash-show_digits fuel (n / 10)) last in
    ground arith

no_slash-show : (n : ℕ) → no_slash (show n) ≡ true
unfolding show
no_slash-show n = no_slash-show_digits (suc n) n

dotted-IsName : (s : Text) → no_slash s ≡ true → 2 ≤ length s → IsName (b'.' ∷ s)
unfolding all_chars
dotted-IsName s slashless long = record {
  slashless = ground arith;
  nonempty = λ e. absurd (ground arith);
  not_dot = λ e. absurd (omega (arith, ap length e));
  not_dot_dot = λ e. absurd (omega (arith, ap length e));
}

-- The name of the temporary file of `name`, behind its dot.
abbrev pub beside : ℕ → Text → ℕ → Text
beside process_id name counter =
    name ++ (text "." ++ (show process_id ++ (text "." ++ (show counter ++ text ".tmp"))))

no_slash-beside :
    (process_id : ℕ) (name : Text) (counter : ℕ)
    → no_slash name ≡ true
    → no_slash (beside process_id name counter) ≡ true
unfolding text all_chars
no_slash-beside process_id name counter h = no_slash-append name _ h (
    no_slash-append (show process_id) _ (no_slash-show process_id)
      (no_slash-append (show counter) (text ".tmp") (no_slash-show counter) refl))

beside-longer :
    (process_id : ℕ) (name : Text) (counter : ℕ)
    → length name + 2 ≤ length (beside process_id name counter)
unfolding text
beside-longer process_id name counter =
    let behind = show process_id ++ (text "." ++ (show counter ++ text ".tmp")) in
    omega (
      arith,
      length-append name (text "." ++ behind),
      length-append (show process_id) (text "." ++ (show counter ++ text ".tmp")),
    )

name_length : Component → ℕ
name_length (normal s) = length s
name_length _ = 0

-- For a path that ends in a name, the temporary file lies in the same directory, and its name has a dot first.
pub tmp_name-dotted :
    (process_id : ℕ) (d : FilePath) (name : Text) (counter : ℕ)
    → IsName name
    → tmp_name process_id (d ++ (normal name ∷ [])) counter
      ≡ d ++ (normal (b'.' ∷ beside process_id name counter) ∷ [])
unfolding tmp_name or_metadata text
tmp_name-dotted process_id d name counter h =
    let longer = beside-longer process_id name counter in
    let fresh =
      dotted-IsName (beside process_id name counter)
        (no_slash-beside process_id name counter h.slashless) (omega arith) in
    rw (tmp_name, file_name-snoc d name)
      (with_file_name-snoc d name (b'.' ∷ beside process_id name counter) fresh)

-- The temporary file is another file.
pub tmp_name-other :
    (process_id : ℕ) (d : FilePath) (name : Text) (counter : ℕ)
    → IsName name
    → tmp_name process_id (d ++ (normal name ∷ [])) counter ≢ d ++ (normal name ∷ [])
unfolding name_length
tmp_name-other process_id d name counter h e =
    let longer = beside-longer process_id name counter in
    let (_, same) =
      snoc-injective d d (normal (b'.' ∷ beside process_id name counter)) (normal name)
        (sym (tmp_name-dotted process_id d name counter h) ∙ e) in
    let lengths : length (b'.' ∷ beside process_id name counter) ≡ length name =
      ap name_length same in
    omega arith
