-- ===== src/Storage/Files/Laws.antt =====
-- Replacing a file by a temporary file and a rename: the file has the old content or the new one, whole.
use ipa_rs_agent_controller.Common.{
  ◌≡◌, ◌≢◌, refl, sym, ◌⊎◌, inl, inr, Bool, true, false, some, [], ◌∷◌, ◌++◌, arith, ◌==◌, list_eq,
  if◌then◌else◌,
}
use ipa_rs_agent_controller.Common.{Result, ok, err, panic, context}
use ipa_rs_agent_controller.Common.Lists.{append-nil}
use ipa_rs_agent_controller.Common.Text.{Text, text}
use ipa_rs_agent_controller.Path.{FilePath, normal, display, component_eq}
use ipa_rs_agent_controller.Path.Laws.{IsName}
use ipa_rs_agent_controller.Host.{
  Host, Codec, Change, create_dir_all, create, write_all, sync_all, open_dir, rename, remove_file,
  touches, io_result,
}
use ipa_rs_agent_controller.Host.Effect.{
  World, M, pure, lift, ◌>>=◌, ignore, perform, perform_io, read,
}
use ipa_rs_agent_controller.Host.Keeps.{Keeps, Keeps-ignore}
use ipa_rs_agent_controller.Host.Lawful.{Reads, Lawful}
use ipa_rs_agent_controller.Host.Triple.{
  Triple, Triple-pure, Triple-bind, Triple-on_error, Triple-lift, Triple-perform, Outcome,
  Outcome-context, after,
}
use ipa_rs_agent_controller.Storage.Files.{
  with_context, unique_tmp_path, sync_parent_dir, write_tmp_and_rename, write_file, write_json,
  read_json,
}
use ipa_rs_agent_controller.Storage.Files.Temporary.{tmp_name-other}

-- What stands behind the contents.
abbrev pub line_end : Bool → Text
line_end true = text "\n"
line_end false = []

pub Triple-context :
    {H : Host} {A : Type 0} {P E : World H → Type 0} {Q : A → World H → Type 0} (c : Text)
    (m : M H A)
    → Triple P m Q E
    → Triple P (with_context c m) Q E
unfolding with_context
Triple-context {E = E} {Q = Q} c m tm = record {
  at = λ w h. Outcome-context Q E c (m w).0 (m w).1 (tm.at w h);
}

module _ {H : Host} (law : Lawful H) (path : FilePath) (before : World H) (new : Text) where
  -- The file has no content that it did not have before.
  abbrev Old : World H → Type 0
  Old w = (t : Text) → Reads H w.os path t → Reads H before.os path t

  abbrev OldOrNew : World H → Type 0
  OldOrNew w = (t : Text) → Reads H w.os path t → (t ≡ new) ⊎ Reads H before.os path t

  abbrev New : World H → Type 0
  New w = Reads H w.os path new

  -- The temporary file has the content, and the file itself is as before.
  abbrev Prepared : FilePath → Text → World H → Type 0
  Prepared tmp t w = Old w × Reads H w.os tmp t

  Old-after : (c : Change) (w : World H) → touches c path ≡ false → Old w → Old (after c w)
  Old-after c w h old = λ t r. old t (law.adds_nothing c w.os path t h r)

  New-OldOrNew : (w : World H) → New w → OldOrNew w
  New-OldOrNew w h = λ t r. inl (ground (arith, h, r))

  module _ (tmp : FilePath) (other : tmp ≢ path) where
    apart : (path == tmp) ≡ false
    apart = ground (arith, other)

    create_step : Triple {H = H} Old (perform (create tmp)) (λ _. Prepared tmp []) OldOrNew
    unfolding touches
    create_step =
        Triple-perform (create tmp)
          (λ w h d. (Old-after (create tmp) w apart h, law.created tmp w.os d))
          (λ w h d t r. inr (Old-after (create tmp) w apart h t r))

    write_step :
        (t u : Text)
        → Triple {H = H}
            (Prepared tmp t)
            (perform (write_all tmp u))
            (λ _. Prepared tmp (t ++ u))
            OldOrNew
    unfolding touches
    write_step t u =
        Triple-perform (write_all tmp u)
          (λ w h d. (Old-after (write_all tmp u) w apart h.0, law.written tmp t u w.os d h.1))
          (λ w h d s r. inr (Old-after (write_all tmp u) w apart h.0 s r))

    end_step :
        (contents : Text) (newline : Bool)
        → Triple {H = H}
            (Prepared tmp contents)
            (if newline then perform (write_all tmp (text "\n")) else pure tt)
            (λ _. Prepared tmp (contents ++ line_end newline))
            OldOrNew
    end_step contents true = write_step contents (text "\n")
    end_step contents false = Triple-pure tt (λ w h. rw (append-nil contents) h)

    sync_step :
        (t : Text)
        → Triple {H = H} (Prepared tmp t) (perform (sync_all tmp)) (λ _. Prepared tmp t) OldOrNew
    unfolding touches
    sync_step t =
        Triple-perform (sync_all tmp)
          (λ w h d.
            (Old-after (sync_all tmp) w refl h.0, law.keeps (sync_all tmp) w.os tmp t refl h.1))
          (λ w h d s r. inr (Old-after (sync_all tmp) w refl h.0 s r))

    rename_step : Triple {H = H} (Prepared tmp new) (perform (rename tmp path)) (λ _. New) OldOrNew
    rename_step =
        Triple-perform (rename tmp path) (λ w h d. law.renamed tmp path new w.os d h.1)
          (λ w h d s r. inr (h.0 s (law.not_renamed tmp path path s w.os d r)))

  -- A call that does not touch the file leaves the new content.
  untouched :
      (c : Change) → touches c path ≡ false → Triple {H = H} New (perform c) (λ _. New) OldOrNew
  untouched c h =
      Triple-perform c (λ w n d. law.keeps c w.os path new h n)
        (λ w n d. New-OldOrNew (after c w) (law.keeps c w.os path new h n))

  sync_dir_step : (dir : FilePath) → Triple {H = H} New (sync_parent_dir dir) (λ _. New) OldOrNew
  unfolding sync_parent_dir touches
  sync_dir_step dir =
      Triple-bind (with_context _ (perform (open_dir dir))) _
        (Triple-context _ (perform (open_dir dir)) (untouched (open_dir dir) refl))
        λ _. Triple-context _ (perform (sync_all dir)) (untouched (sync_all dir) refl)

  replaced :
      (dir tmp : FilePath) (contents : Text) (newline : Bool)
      → tmp ≢ path
      → contents ++ line_end newline ≡ new
      → Triple {H = H} Old (write_tmp_and_rename path dir tmp contents newline) (λ _. New) OldOrNew
  unfolding write_tmp_and_rename
  replaced dir tmp contents newline other e =
      Triple-bind (perform (create tmp)) _ (create_step tmp other) λ _.
        Triple-bind (perform (write_all tmp contents)) _ (write_step tmp other [] contents) λ _.
          Triple-bind (if newline then perform (write_all tmp (text "\n")) else pure tt) _
            (end_step tmp other contents newline)
            λ _.
              Triple-bind (perform (sync_all tmp)) _
                (sync_step tmp other (contents ++ line_end newline))
                λ _.
                  Triple-bind
                    (with_context (text "failed to replace " ++ display path)
                      (perform (rename tmp path)))
                    _ (Triple-context _ (perform (rename tmp path)) (rw e (rename_step tmp other)))
                    λ _. sync_dir_step dir

  cleanup-Keeps : (tmp : FilePath) → Keeps OldOrNew (ignore {H = H} (perform (remove_file tmp)))
  unfolding perform perform_io
  cleanup-Keeps tmp =
      Keeps-ignore (perform (remove_file tmp))
        (record { at = λ w h t r. h t (law.removed tmp path t w.os r) })

  tmp_step :
      (d : FilePath) (name : Text)
      → path ≡ d ++ (normal name ∷ [])
      → IsName name
      → Triple {H = H} Old (unique_tmp_path path) (λ tmp w. Old w × (tmp ≢ path)) OldOrNew
  unfolding unique_tmp_path
  tmp_step d name e named = record {
    at = λ w h. (h, rw e (tmp_name-other H.process_id d name w.tmp_counter named));
  }

  written_file :
      (what : Text) (d : FilePath) (name contents : Text) (newline : Bool)
      → path ≡ d ++ (normal name ∷ [])
      → IsName name
      → contents ++ line_end newline ≡ new
      → Triple {H = H} Old (write_file what path contents newline) (λ _. New) OldOrNew
  unfolding write_file touches
  written_file what d name contents newline e named same =
      Triple-bind (lift _) _ (Triple-lift _ (λ a w h. h) (λ w h t r. inr (h t r))) λ dir.
        Triple-bind (perform (create_dir_all dir)) _
          (Triple-perform (create_dir_all dir) (λ w h d. Old-after (create_dir_all dir) w refl h)
            (λ w h d t r. inr (Old-after (create_dir_all dir) w refl h t r)))
          λ _. Triple-bind (unique_tmp_path path) _ (tmp_step d name e named) λ tmp.
            Triple-on_error (write_tmp_and_rename path dir tmp contents newline) _
              (record { at = λ w h. (replaced dir tmp contents newline h.1 same).at w h.0 })
              (λ _. cleanup-Keeps tmp)

abbrev json_text : {A : Type 0} → Codec A → A → Text
json_text codec value = codec.to_json value ++ text "\n"

Outcome-ok :
    {A W : Type 0} (Q : A → W → Type 0) (E : W → Type 0) (r : Result A) (w : W) (a : A)
    → Outcome Q E r w
    → r ≡ ok a
    → Q a w
Outcome-ok Q E (ok b) w a h e = let same : b ≡ a = ground arith in rw (sym same) h
Outcome-ok Q E (err e) w a h k = absurd cc
Outcome-ok Q E (panic e) w a h k = absurd cc

Outcome-any :
    {A W : Type 0} (Q : A → W → Type 0) (E : W → Type 0) (r : Result A) (w : W)
    → ((a : A) → Q a w → E w)
    → Outcome Q E r w
    → E w
Outcome-any Q E (ok b) w f h = f b h
Outcome-any Q E (err e) w f h = h
Outcome-any Q E (panic e) w f h = h

module _ {H : Host} {A : Type 0} (law : Lawful H) (codec : Codec A) (d : FilePath) (name : Text)
    (named : IsName name) (value : A) (w : World H) where
  abbrev target : FilePath
  target = d ++ (normal name ∷ [])

  json-Outcome :
      Outcome
        (λ _. New law target w (json_text codec value))
        (OldOrNew law target w (json_text codec value))
        (write_json codec target value w).0
        (write_json codec target value w).1
  unfolding write_json
  json-Outcome =
      (written_file law target w (json_text codec value) (text "json path") d name
          (codec.to_json value) true refl named refl).at
        w (λ t r. r)

  -- A successful write leaves the whole text of the value in the file.
  pub write_json-ok :
      (write_json codec target value w).0 ≡ ok tt
      → Reads H (write_json codec target value w).1.os target (codec.to_json value ++ text "\n")
  write_json-ok h = Outcome-ok _ _ _ _ tt json-Outcome h

  -- On a lawful host, for a path that ends in a file name: however a write of JSON ends, by success, an
  -- error of any of its calls or a panic, what the file can be read as afterwards is the whole new text with
  -- its newline, or what it could be read as before. It is never found half written.
  pub write_json-whole :
      (t : Text)
      → Reads H (write_json codec target value w).1.os target t
      → (t ≡ codec.to_json value ++ text "\n") ⊎ Reads H w.os target t
  write_json-whole =
      Outcome-any (λ _. New law target w (json_text codec value))
        (OldOrNew law target w (json_text codec value)) (write_json {H = H} codec target value w).0
        (write_json {H = H} codec target value w).1
        (λ a h.
          New-OldOrNew law target w (json_text codec value)
            (write_json {H = H} codec target value w).1 h)
        json-Outcome

  pub read_json-ok :
      {v : World H} (t : Text) (a : A)
      → Reads H v.os target t
      → codec.from_json t ≡ some a
      → read_json codec target v ≡ (ok a, v)
  unfolding read_json ◌>>=◌ with_context read lift io_result context
  read_json-ok t a h e = rw (h, e)
