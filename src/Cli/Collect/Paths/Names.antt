-- ===== src/Cli/Collect/Paths/Names.antt =====
-- The names of databases, buckets and secrets that `extract_path` gathers.
use vignemale.Cli.Collect.Extract.{Extracted, extract_module}
use vignemale.Cli.Collect.Paths.{
  DirEntry, Extraction, add_module, empty_extraction, extract_dir, extract_modules, module_names,
}
use vignemale.Cli.Collect.Syntax.{Members}
use vignemale.Prelude.{List, Nodup, [], extend_new-Nodup, nat_eq, opt_eq, pair_eq, ◌∷◌}
use vignemale.Prelude.Text.{Text, text_eq}

record IsDistinct (e : Extraction) : Type 0 where
  databases : Nodup e.databases
  buckets : Nodup e.buckets
  secrets : Nodup e.secrets

add_module-IsDistinct :
    (m : Text) (x : Extracted) (e : Extraction) → IsDistinct e → IsDistinct (add_module m x e)
unfolding add_module
add_module-IsDistinct m x e h = record {
  databases = extend_new-Nodup e.databases x.databases h.databases;
  buckets = extend_new-Nodup e.buckets x.buckets h.buckets;
  secrets = extend_new-Nodup e.secrets x.secrets h.secrets;
}

module _ (load : Text → Members) where
  extract_modules-IsDistinct :
      (names : List Text) (e : Extraction)
      → IsDistinct e
      → IsDistinct (extract_modules load names e)
  unfolding extract_modules
  extract_modules-IsDistinct [] e h = h
  extract_modules-IsDistinct (m ∷ rest) e h =
      extract_modules-IsDistinct rest (add_module m (extract_module m (load m)) e)
        (add_module-IsDistinct m (extract_module m (load m)) e h)

  -- Whatever the modules declare, however often, `extract_path` of a directory lists each
  -- database, each bucket and each secret once.
  pub extract_dir-Nodup :
      (entries : List DirEntry)
      → let e = extract_dir load entries in Nodup e.databases × Nodup e.buckets × Nodup e.secrets
  unfolding extract_dir
  extract_dir-Nodup entries =
      let d =
        extract_modules-IsDistinct (module_names entries) empty_extraction
          (record { databases = tt; buckets = tt; secrets = tt }) in
      (d.databases, d.buckets, d.secrets)
