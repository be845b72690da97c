-- ===== src/Api/Serving/Static.antt =====
-- `static_files` of `vignemale/api.py`. `base` is the directory of the declaring file, an absolute
-- path.
use mathlib.Core.List.{reverse}
use vignemale.Api.Gateway.{is_slash}
use vignemale.Api.Registry.{App}
use vignemale.Prelude.{
  Bool, List, Option, [], false, if◌then◌else◌, is_empty, list_beq, nat_eq, none, opt_eq, pair_eq,
  some, true, ◌++◌, ◌==◌, ◌||◌, ◌∷◌,
}
use vignemale.Prelude.Text.{Text, codes, ends_with, join, split, starts_with, strip_right, text_eq}

-- The segments that are kept, the last one first, after one more: no empty one, no `.`, and `..`
-- drops the one before it.
unfoldable pub keep_segment : List Text → Text → List Text
unfolding list_beq
keep_segment kept seg =
    if is_empty seg || (seg == codes ".")
    then kept
    else if seg == codes ".."
    then rest_of kept
    else seg ∷ kept
  where
    rest_of : List Text → List Text
    rest_of [] = []
    rest_of (_ ∷ ks) = ks

unfoldable pub normal_segments : List Text → List Text → List Text
unfolding keep_segment
normal_segments kept [] = reverse kept
normal_segments kept (seg ∷ segs) = normal_segments (keep_segment kept seg) segs

-- os.path.normpath(p) of an absolute path
unfoldable pub normpath : Text → Text
unfolding normal_segments split join
normpath p = b'/' ∷ join (codes "/") (normal_segments [] (split b'/' p))

-- `resolve(p)`
unfoldable pub resolve : Text → Text → Text
unfolding normpath starts_with
resolve base p = if starts_with p (codes "/") then p else normpath (base ++ (b'/' ∷ p))

abbrev path_or_root : Text → Text
path_or_root [] = codes "/"
path_or_root (c ∷ s) = c ∷ s

-- os.path.join(directory, "index.html")
unfoldable pub index_page : Text → Text
unfolding ends_with
index_page directory =
    if ends_with directory (codes "/")
    then directory ++ codes "index.html"
    else directory ++ codes "/index.html"

-- `not_found or (os.path.join(directory, "index.html") if spa else None)`
abbrev page_of : Option Text → Bool → Text → Option Text
page_of (some (c ∷ s)) spa directory = some (c ∷ s)
page_of _ true directory = some (index_page directory)
page_of (some []) false directory = none
page_of none false directory = none

unfoldable pub static_files : {W : Type 0} → Text → Text → Text → Bool → Option Text → App W → App W
unfolding resolve strip_right
static_files base path dir spa not_found app =
    let directory = resolve base dir in
    let stripped = strip_right is_slash path in
    record app {
      static_routes =
          app.static_routes
          ++ (record {
            path = path_or_root stripped;
            directory = directory;
            not_found = map_option (resolve base) (page_of not_found spa directory);
            fallback = spa || is_empty stripped;
          }
              ∷ []);
    }
  where
    map_option : (Text → Text) → Option Text → Option Text
    map_option f none = none
    map_option f (some t) = some (f t)
