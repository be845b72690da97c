-- ===== src/Tests/Runtime.antt =====
-- `vignemale/__main__.py` on small inputs.
use vignemale.Cli.Collect.Paths.{DirEntry, is_module_file}
use vignemale.Prelude.{List, [], false, inl, inr, list_beq, none, refl, some, true, ◌∷◌, ◌≡◌}
use vignemale.Prelude.Text.{Text, codes, ends_with, starts_with}
use vignemale.Runtime.Loading.{is_package, load_app, load_file, load_package, package_modules}
use vignemale.Runtime.Start.{parse_args}
use vignemale.Runtime.Workers.{
  Event, discard, ended, exited, react, start_workers, stop, stop_signal, supervise,
  wait_interrupted,
}
use vignemale.Runtime.Workers.Stopping.{AllOrNone, supervise-AllOrNone, supervise_ends}

abbrev listing : Text → List Text
listing d = codes "__init__.py" ∷ codes "items.py" ∷ []

abbrev app_dir : List DirEntry
app_dir =
    record { name = codes "_private.py"; is_dir = false; has_init = false }
    ∷ record { name = codes "catalog"; is_dir = true; has_init = true }
    ∷ record { name = codes "orders.py"; is_dir = false; has_init = false }
    ∷ []

loads :
    load_app listing app_dir
    ≡ load_package (codes "catalog") (codes "catalog" ∷ codes "catalog.items" ∷ [])
      ∷ load_file (codes "orders.py")
      ∷ []
unfolding load_app package_modules is_package is_module_file starts_with ends_with list_beq
loads = refl

abbrev story : List Event
story = wait_interrupted ∷ exited 12 ∷ stop_signal ∷ exited 11 ∷ []

told_once : (supervise story (start_workers (11 ∷ 12 ∷ []))).signalled ≡ 11 ∷ 12 ∷ []
unfolding supervise react stop discard start_workers
told_once = refl

supervise-AllOrNone_example :
    AllOrNone (11 ∷ 12 ∷ []) (supervise story (start_workers (11 ∷ 12 ∷ [])))
supervise-AllOrNone_example = supervise-AllOrNone (11 ∷ 12 ∷ []) story

supervise_ends_example : ended (supervise story (start_workers (11 ∷ 12 ∷ []))) ≡ true
supervise_ends_example =
    supervise_ends (11 ∷ 12 ∷ []) story (inr (inr (inr (inl refl))), (inr (inl refl), tt))

args :
    parse_args (codes "--addr" ∷ codes "a:1" ∷ codes "app" ∷ []) (codes "b:2") none
    ≡ (codes "a:1", some (codes "app"))
unfolding parse_args list_beq
args = refl
