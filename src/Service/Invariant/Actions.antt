-- ===== src/Service/Invariant/Actions.antt =====
-- Which actions keep the stored metadata valid.
use ipa_rs_agent_controller.Common.{Bool, false, List, Option, none, some}
use ipa_rs_agent_controller.Common.Text.{Text}
use ipa_rs_agent_controller.Path.{FilePath}
use ipa_rs_agent_controller.Host.{Host, Change, create_dir_all, remove_file}
use ipa_rs_agent_controller.Host.Effect.{M, lift, ◌>>=◌, perform, perform_io, perform_if_found}
use ipa_rs_agent_controller.Host.Keeps.{
  Keeps, Keeps-bind, Keeps-on_error, Keeps-pure, Keeps-lift, Keeps-ignore, keeps_rules,
}
use ipa_rs_agent_controller.Storage.Layout.{Layout}
use ipa_rs_agent_controller.Storage.Files.{
  unique_tmp_path, tmp_name, sync_parent_dir, write_tmp_and_rename, write_file, write_text_file,
}
use ipa_rs_agent_controller.Storage.Files.Keeps.{Keeps-with_context}
use ipa_rs_agent_controller.Command.{
  call_program, run, run_checked, append_to_file, make_parent, sync_parent,
}
use ipa_rs_agent_controller.Service.Invariant.{Trusted, StoredValid}
use ipa_rs_agent_controller.Service.Invariant.Files.{
  Other, Named, tmp-Other, Quiet, Quiet-create_dir_all, Quiet-sync_all, Quiet-open_dir,
  Quiet-create, Quiet-open_append, Quiet-write_all, Quiet-rename, Quiet-remove_file,
}

module _ {H : Host} (l : Layout) (trusted : Trusted H l) where
  pub Keeps-perform : (c : Change) → Quiet l trusted c → Keeps {H = H} (StoredValid l) (perform c)
  unfolding perform perform_io
  Keeps-perform c q = record {
    at = λ w h. record {
      valid = λ id t env v r j. h.valid id t env v (q.adds_nothing id t w.os v r) j;
    };
  }

  pub Keeps-perform_if_found :
      (c : Change) → Quiet l trusted c → Keeps {H = H} (StoredValid l) (perform_if_found c)
  unfolding perform_if_found perform_io
  Keeps-perform_if_found c q = record {
    at = λ w h. record {
      valid = λ id t env v r j. h.valid id t env v (q.adds_nothing id t w.os v r) j;
    };
  }

  call_program-Keeps :
      (program : Text) (args : List Text)
      → Keeps {H = H} (StoredValid l) (call_program program args)
  unfolding call_program
  call_program-Keeps program args = record {
    at = λ w h. record {
      valid = λ id t env v r j. h.valid id t env v (trusted.programs program args w.os id t r) j;
    };
  }

  pub Keeps-run :
      (program : Text) (args : List Text) → Keeps {H = H} (StoredValid l) (run program args)
  unfolding run
  Keeps-run program args =
      Keeps-with_context _ (call_program program args) (call_program-Keeps program args)

  pub Keeps-run_checked :
      (program : Text) (args : List Text) → Keeps {H = H} (StoredValid l) (run_checked program args)
  unfolding run_checked
  Keeps-run_checked program args = search (keeps_rules, Keeps-run)

  make_parent-Keeps : (o : Option FilePath) → Keeps {H = H} (StoredValid l) (make_parent o)
  unfolding make_parent
  make_parent-Keeps none = Keeps-pure tt
  make_parent-Keeps (some d) = Keeps-perform (create_dir_all d) (Quiet-create_dir_all l trusted d)

  sync_parent-Keeps : (o : Option FilePath) → Keeps {H = H} (StoredValid l) (sync_parent o)
  unfolding sync_parent
  sync_parent-Keeps none = Keeps-pure tt
  sync_parent-Keeps (some d) =
      search (keeps_rules, Keeps-with_context, Keeps-perform, Quiet-open_dir, Quiet-sync_all)

  pub Keeps-append_to_file :
      (p : FilePath) (content : Text)
      → Other l p
      → Keeps {H = H} (StoredValid l) (append_to_file p content)
  unfolding append_to_file
  Keeps-append_to_file p content o =
      search
        (
          keeps_rules, Keeps-perform, Quiet-open_append, Quiet-write_all, Quiet-sync_all,
          make_parent-Keeps, sync_parent-Keeps,
        )
        depth 20

  write_tmp_and_rename-Keeps :
      (p dir tmp : FilePath) (contents : Text) (newline : Bool)
      → Other l p
      → Other l tmp
      → Keeps {H = H} (StoredValid l) (write_tmp_and_rename p dir tmp contents newline)
  unfolding write_tmp_and_rename sync_parent_dir
  write_tmp_and_rename-Keeps p dir tmp contents newline op ot =
      search
        (
          keeps_rules, Keeps-perform, Keeps-with_context, Quiet-create, Quiet-write_all,
          Quiet-sync_all, Quiet-open_dir, Quiet-rename,
        )
        depth 20

  tmp_name-Keeps :
      {X : Type 0} (p : FilePath) (rest : FilePath → M H X)
      → Named p
      → ((tmp : FilePath) → Other l tmp → Keeps {H = H} (StoredValid l) (rest tmp))
      → Keeps {H = H} (StoredValid l) (unique_tmp_path p >>= rest)
  unfolding unique_tmp_path ◌>>=◌
  tmp_name-Keeps p rest n k = record {
    at = λ w h.
        let o : Other l (tmp_name H.process_id p w.tmp_counter) =
          rw n.shape (tmp-Other l H.process_id n.dir n.name w.tmp_counter n.named) in
        (k (tmp_name H.process_id p w.tmp_counter) o).at _ (record { valid = h.valid });
  }

  pub Keeps-write_file :
      (what : Text) (p : FilePath) (contents : Text) (newline : Bool)
      → Other l p
      → Named p
      → Keeps {H = H} (StoredValid l) (write_file what p contents newline)
  unfolding write_file
  Keeps-write_file what p contents newline op n = Keeps-bind (lift _) _ (Keeps-lift _) λ dir.
      Keeps-bind (perform (create_dir_all dir)) _
        (Keeps-perform (create_dir_all dir) (Quiet-create_dir_all l trusted dir))
        λ _. tmp_name-Keeps p _ n λ tmp o.
          Keeps-on_error (write_tmp_and_rename p dir tmp contents newline) _
            (write_tmp_and_rename-Keeps p dir tmp contents newline op o)
            (λ e.
              Keeps-ignore _ (Keeps-perform (remove_file tmp) (Quiet-remove_file l trusted tmp)))

  pub Keeps-write_text_file :
      (p : FilePath) (contents : Text)
      → Other l p
      → Named p
      → Keeps {H = H} (StoredValid l) (write_text_file p contents)
  unfolding write_text_file
  Keeps-write_text_file p contents o n = Keeps-write_file _ p contents false o n
