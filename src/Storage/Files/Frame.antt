-- ===== src/Storage/Files/Frame.antt =====
-- Replacing a file changes no other file.
use ipa_rs_agent_controller.Common.{ℕ, ◌≡◌, ◌≢◌, refl, Bool, true, false, arith, list_eq, ◌==◌}
use ipa_rs_agent_controller.Common.Text.{Text, text}
use ipa_rs_agent_controller.Path.{FilePath, component_eq}
use ipa_rs_agent_controller.Host.{
  Host, Codec, Change, create_dir_all, create, write_all, sync_all, open_dir, rename, remove_file,
  touches,
}
use ipa_rs_agent_controller.Host.Effect.{World, lift, ◌>>=◌, perform, perform_io}
use ipa_rs_agent_controller.Host.Keeps.{
  Keeps, Keeps-bind, Keeps-lift, Keeps-on_error, Keeps-ignore, keeps_rules,
}
use ipa_rs_agent_controller.Host.Lawful.{Reads, Lawful}
use ipa_rs_agent_controller.Storage.Files.{
  tmp_name, unique_tmp_path, sync_parent_dir, write_tmp_and_rename, write_file, write_json,
}
use ipa_rs_agent_controller.Storage.Files.Keeps.{Keeps-with_context}

module _ {H : Host} (law : Lawful H) (q : FilePath) (before : World H) where
  -- The file at `q` has no content that it did not have before.
  pub record Same (w : World H) : Type 0 where
    pub same : (t : Text) → Reads H w.os q t → Reads H before.os q t

  Same-perform : (c : Change) → touches c q ≡ false → Keeps {H = H} Same (perform c)
  unfolding perform perform_io
  Same-perform c h = record {
    at = λ w s. record { same = λ t r. s.same t (law.adds_nothing c w.os q t h r) };
  }

  Same-remove_file : (p : FilePath) → Keeps {H = H} Same (perform (remove_file p))
  unfolding perform perform_io
  Same-remove_file p = record {
    at = λ w s. record { same = λ t r. s.same t (law.removed p q t w.os r) };
  }

  Same-create : (p : FilePath) → (q == p) ≡ false → Keeps {H = H} Same (perform (create p))
  unfolding touches
  Same-create p h = Same-perform (create p) h

  Same-write_all :
      (p : FilePath) (t : Text) → (q == p) ≡ false → Keeps {H = H} Same (perform (write_all p t))
  unfolding touches
  Same-write_all p t h = Same-perform (write_all p t) h

  Same-rename :
      (a b : FilePath)
      → (q == a) ≡ false
      → (q == b) ≡ false
      → Keeps {H = H} Same (perform (rename a b))
  unfolding touches
  Same-rename a b ha hb = Same-perform (rename a b) (ground (arith, ha, hb))

  Same-sync_all : (p : FilePath) → Keeps {H = H} Same (perform (sync_all p))
  unfolding touches
  Same-sync_all p = Same-perform (sync_all p) refl

  Same-open_dir : (p : FilePath) → Keeps {H = H} Same (perform (open_dir p))
  unfolding touches
  Same-open_dir p = Same-perform (open_dir p) refl

  Same-quiet :
      (p dir tmp : FilePath) (contents : Text) (newline : Bool)
      → (q == p) ≡ false
      → (q == tmp) ≡ false
      → Keeps {H = H} Same (write_tmp_and_rename p dir tmp contents newline)
  unfolding write_tmp_and_rename sync_parent_dir
  Same-quiet p dir tmp contents newline hp ht =
      search
        (
          keeps_rules, Keeps-with_context, Same-create, Same-write_all, Same-rename, Same-sync_all,
          Same-open_dir,
        )
        depth 20

  Same-write_file :
      (what : Text) (p : FilePath) (contents : Text) (newline : Bool)
      → q ≢ p
      → ((counter : ℕ) → q ≢ tmp_name H.process_id p counter)
      → Keeps {H = H} Same (write_file what p contents newline)
  unfolding write_file unique_tmp_path ◌>>=◌ touches
  Same-write_file what p contents newline hp ht = Keeps-bind (lift _) _ (Keeps-lift _) λ dir.
      Keeps-bind (perform (create_dir_all dir)) _ (Same-perform (create_dir_all dir) refl) λ _.
        record {
          at = λ w h.
              let tmp = tmp_name H.process_id p w.tmp_counter in
              let apart : (q == tmp) ≡ false = ground (arith, ht w.tmp_counter) in
              let other : (q == p) ≡ false = ground (arith, hp) in
              let whole =
                Keeps-on_error (write_tmp_and_rename p dir tmp contents newline) _
                  (Same-quiet p dir tmp contents newline other apart)
                  (λ e. Keeps-ignore _ (Same-remove_file tmp)) in
              whole.at _ (record { same = h.same });
        }

-- Writing JSON adds nothing to a file that is neither the written one nor its temporary file.
pub write_json-frame :
    {H : Host} {A : Type 0} (law : Lawful H) (codec : Codec A) (p q : FilePath) (value : A)
    (w : World H) (t : Text)
    → q ≢ p
    → ((counter : ℕ) → q ≢ tmp_name H.process_id p counter)
    → Reads H (write_json codec p value w).1.os q t
    → Reads H w.os q t
unfolding write_json
write_json-frame law codec p q value w t hp ht r =
    ((Same-write_file law q w (text "json path") p (codec.to_json value) true hp ht).at w
        (record { same = λ u s. s })).same
      t r
