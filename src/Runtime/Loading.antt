-- ===== src/Runtime/Loading.antt =====
-- What `_load_app` of `vignemale/__main__.py` imports of a directory, and what `extract_path` of
-- `vignemale_cli/collect.py` reads of it.
use vignemale.Cli.Collect.Paths.{DirEntry, is_module_file}
use vignemale.Prelude.{
  Bool, List, [], if◌then◌else◌, keep, length, list_beq, map, nat_eq, not, opt_eq, pair_eq, take,
  true, ◌&&◌, ◌++◌, ◌-◌, ◌==◌, ◌||◌, ◌∷◌, ◌≡◌,
}
use vignemale.Prelude.Text.{Text, codes, starts_with, text_eq}

-- A file is loaded by its path; a package with its modules.
pub data Load : Type 0 where
  load_file : Text → Load
  load_package : Text → List Text → Load

-- The modules of a package that `_load_package` imports, after the package itself.
unfoldable pub package_modules : Text → List Text → List Text
unfolding is_module_file
package_modules pkg [] = []
package_modules pkg (f ∷ fs) =
    let rest = package_modules pkg fs in
    if is_module_file f then (pkg ++ (b'.' ∷ take (length f - 3) f)) ∷ rest else rest

unfoldable pub is_package : DirEntry → Bool
unfolding starts_with list_beq
is_package d =
    not (starts_with d.name (codes "_") || starts_with d.name (codes "."))
    && not (d.name == codes "vignemale_clients")
    && (d.is_dir && d.has_init)

-- `_load_app` of a directory; `listing` lists a subdirectory, sorted by name.
unfoldable pub load_app : (Text → List Text) → List DirEntry → List Load
unfolding is_module_file is_package package_modules
load_app listing [] = []
load_app listing (d ∷ rest) =
    let loads = load_app listing rest in
    if is_module_file d.name
    then load_file d.name ∷ loads
    else if is_package d
    then load_package d.name (d.name ∷ package_modules d.name (listing d.name)) ∷ loads
    else loads

-- The name that the extraction has for what is loaded.
abbrev pub loaded_name : Load → Text
loaded_name (load_file f) = take (length f - 3) f
loaded_name (load_package pkg _) = pkg

-- A file is that of a module; a package comes before its module files, in the order of its listing.
abbrev pub LoadsModules : (Text → List Text) → Load → Type 0
LoadsModules listing (load_file f) = is_module_file f ≡ true
LoadsModules listing (load_package pkg names) =
    names
    ≡ pkg ∷ map (λ f. pkg ++ (b'.' ∷ take (length f - 3) f)) (keep is_module_file (listing pkg))
