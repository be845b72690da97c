-- ===== src/Cli/Init/Guard.antt =====
-- What `vignemale init` leaves alone.
use vignemale.Cli.Files.{Files, Frames}
use vignemale.Cli.Init.{
  create_project, guarded, init, is_here, project_name, project_target, write_project,
}
use vignemale.Prelude.{
  Bool, Bool-cases, Elem, [], any, any-Elem, ap, false, inl, inr, is_empty, nat_eq, opt_eq, pair_eq,
  refl, some, true, ◌∙◌, ◌∷◌, ◌≡◌,
}
use vignemale.Prelude.Text.{Text, text_eq}
use vignemale.Python.{Result, and_then, ok, raise}
use vignemale.Python.Path.{join_path}

module _ (F : Files) (K : Frames F) where
  -- A guarded file is there: nothing is written.
  write_project-keeps :
      (target name guard text : Text) (s : F.State)
      → Elem guard guarded
      → F.content (join_path target guard) s ≡ some text
      → (write_project F target name s).1 ≡ s
  unfolding write_project
  write_project-keeps target name guard text s m h =
      let there : any (λ g. F.exists (join_path target g) s) guarded ≡ true =
        (any-Elem (λ g. F.exists (join_path target g) s) guarded).1
          (guard, m, K.present (join_path target guard) text s h) in
      elim (Bool-cases (is_empty name)) [ inl e ↦ rw e refl | inr e ↦ rw (e, there) refl ]

  after_dirs :
      (target name guard text : Text) (x : Result (Unit {0}) × F.State)
      → Elem guard guarded
      → F.content (join_path target guard) x.1 ≡ some text
      → F.content (join_path target guard) (and_then x (λ _ s'. write_project F target name s')).1
        ≡ some text
  after_dirs target name guard text (ok _, s) m h =
      ap (λ u. F.content (join_path target guard) u)
        (write_project-keeps target name guard text s m h)
      ∙ h
  after_dirs target name guard text (raise e, s) m h = h

  create_project-keeps :
      (here : Bool) (target app guard text : Text) (s : F.State)
      → Elem guard guarded
      → F.content (join_path target guard) s ≡ some text
      → F.content (join_path target guard) (create_project F here target app s).1 ≡ some text
  unfolding create_project
  create_project-keeps true target app guard text s m h =
      ap (λ u. F.content (join_path target guard) u)
        (write_project-keeps target app guard text s m h)
      ∙ h
  create_project-keeps false target [] guard text s m h = h
  create_project-keeps false target (c ∷ app) guard text s m h =
      after_dirs target (c ∷ app) guard text (F.make_dirs target s) m
        (K.make_dirs_same (join_path target guard) target s ∙ h)

  -- Whatever `vignemale init` does, an `app.py` or `pyproject.toml` that stands in the directory of
  -- the project keeps its text.
  pub init-keeps :
      (name path guard text : Text) (s : F.State)
      → Elem guard guarded
      → F.content (join_path (project_target F name path) guard) s ≡ some text
      → F.content (join_path (project_target F name path) guard) (init F name path s).1 ≡ some text
  unfolding init
  init-keeps name path guard text s m h =
      create_project-keeps (is_here name) (project_target F name path) (project_name F name path)
        guard text s m h
