-- ===== src/Cli/Gateway/Prefix.antt =====
-- The two prefix functions, `static_prefix` of `vignemale/api.py` and `_literal_prefix` of
-- `vignemale_cli/gateway.py`, on the paths that segments make.
use mathlib.Core.Bool.{false≢true}
use vignemale.Api.Gateway.{before, ends_prefix, static_prefix}
use vignemale.Cli.Gateway.{is_dynamic, literal_prefix, literal_segments}
use vignemale.Prelude.{
  All, Bool, List, [], ap, arith, false, is_empty, refl, some, sym, ◌||◌, ◌∙◌, ◌∷◌, ◌≡◌,
}
use vignemale.Prelude.Text.{Text, codes, join, split, starts_with}
use vignemale.Prelude.Text.Split.{Free, IsWord, split-join, strip-join}

-- `"/" + "/".join(segs)`
abbrev pub path_of : List Text → Text
path_of segs = b'/' ∷ join (codes "/") segs

abbrev pub IsSegment : Text → Type 0
IsSegment = IsWord b'/'

ends_prefix_word :
    (w : Text)
    → is_empty w ≡ false
    → ends_prefix w ≡ (starts_with w (codes ":") || starts_with w (codes "{"))
unfolding ends_prefix starts_with
ends_prefix_word [] h = absurd (false≢true (sym h))
ends_prefix_word (c ∷ w) h = ground arith

pub path-Free : (ws : List Text) → All IsSegment ws → All (Free b'/') ws
path-Free [] h = tt
path-Free (w ∷ ws) h = (h.0.1, path-Free ws h.1)

pub static_prefix-path_of :
    (w : Text) (ws : List Text)
    → All IsSegment (w ∷ ws)
    → static_prefix (path_of (w ∷ ws)) ≡ path_of (before ends_prefix (w ∷ ws))
unfolding static_prefix
static_prefix-path_of w ws h =
    ap (λ t. path_of (before ends_prefix (split b'/' t))) (strip-join b'/' w ws h)
    ∙ ap (λ segs. path_of (before ends_prefix segs)) (split-join b'/' w ws (path-Free (w ∷ ws) h))

literal_segments_words :
    (ws : List Text) → All IsSegment ws → literal_segments ws ≡ before is_dynamic ws
unfolding literal_segments before
literal_segments_words [] h = refl
literal_segments_words (w ∷ ws) h = ground (arith, literal_segments_words ws h.1)

pub literal_prefix-path_of :
    (w : Text) (ws : List Text)
    → All IsSegment (w ∷ ws)
    → literal_prefix (some (path_of (w ∷ ws))) ≡ path_of (before is_dynamic (w ∷ ws))
unfolding literal_prefix literal_segments split
literal_prefix-path_of w ws h =
    ap (λ segs. path_of (literal_segments ([] ∷ segs)))
      (split-join b'/' w ws (path-Free (w ∷ ws) h))
    ∙ ap path_of (literal_segments_words (w ∷ ws) h)

before-ext :
    (p q : Text → Bool) (ws : List Text) → All (λ w. p w ≡ q w) ws → before p ws ≡ before q ws
unfolding before
before-ext p q [] h = refl
before-ext p q (w ∷ ws) h = ground (arith, before-ext p q ws h.1)

abbrev param_mark : Text → Bool
param_mark v = starts_with v (codes ":")

-- The segment begins with neither `{` nor `*`.
abbrev pub IsPlain : Text → Type 0
IsPlain v = (starts_with v (codes "{") ≡ false) × (starts_with v (codes "*") ≡ false)

api_mark : (v : Text) → IsSegment v → IsPlain v → ends_prefix v ≡ param_mark v
api_mark v seg plain = ground (arith, ends_prefix_word v seg.0)

cli_mark : (v : Text) → IsPlain v → is_dynamic v ≡ param_mark v
unfolding is_dynamic starts_with
cli_mark [] plain = refl
cli_mark (c ∷ v) plain = ground arith

api_marks :
    (ws : List Text)
    → All IsSegment ws
    → All IsPlain ws
    → All (λ v. ends_prefix v ≡ param_mark v) ws
api_marks [] h plain = tt
api_marks (w ∷ ws) h plain = (api_mark w h.0 plain.0, api_marks ws h.1 plain.1)

cli_marks : (ws : List Text) → All IsPlain ws → All (λ v. is_dynamic v ≡ param_mark v) ws
cli_marks [] plain = tt
cli_marks (w ∷ ws) plain = (cli_mark w plain.0, cli_marks ws plain.1)

-- On a path of segments (each a word without `/`) that all begin with neither `{` nor `*`, the two
-- functions give the same prefix: the segments before the first that begins with `:`.
pub prefixes_agree :
    (w : Text) (ws : List Text)
    → All IsSegment (w ∷ ws)
    → All IsPlain (w ∷ ws)
    → (static_prefix (path_of (w ∷ ws))
        ≡ path_of (before (λ v. starts_with v (codes ":")) (w ∷ ws)))
      × (literal_prefix (some (path_of (w ∷ ws))) ≡ static_prefix (path_of (w ∷ ws)))
prefixes_agree w ws h plain =
    let api =
      static_prefix-path_of w ws h
      ∙ ap path_of (before-ext ends_prefix param_mark (w ∷ ws) (api_marks (w ∷ ws) h plain)) in
    (
      api,
      literal_prefix-path_of w ws h
          ∙ ap path_of (before-ext is_dynamic param_mark (w ∷ ws) (cli_marks (w ∷ ws) plain))
          ∙ sym api,
    )

-- On a path of two segments, of which the first begins neither with `:` nor `{` nor `*` and the second
-- is a wildcard, `_literal_prefix` stops before the wildcard and `static_prefix` keeps it.
pub wildcard_prefixes :
    (a r : Text)
    → IsSegment a
    → ends_prefix a ≡ false
    → is_dynamic a ≡ false
    → Free b'/' r
    → let path = path_of (a ∷ (b'*' ∷ r) ∷ []) in
      (literal_prefix (some path) ≡ path_of (a ∷ [])) × (static_prefix path ≡ path)
wildcard_prefixes a r seg e d free =
    let words : All IsSegment (a ∷ (b'*' ∷ r) ∷ []) = (seg, ((refl, star_free), tt)) in
    (
      literal_prefix-path_of a ((b'*' ∷ r) ∷ []) words ∙ ap path_of (cut d),
      static_prefix-path_of a ((b'*' ∷ r) ∷ []) words ∙ ap path_of (kept e),
    )
  where
    star_free : Free b'/' (b'*' ∷ r)
    star_free = ground arith

    cut : is_dynamic a ≡ false → before is_dynamic (a ∷ (b'*' ∷ r) ∷ []) ≡ a ∷ []
    cut h = unfold before is_dynamic in ground arith

    kept : ends_prefix a ≡ false → before ends_prefix (a ∷ (b'*' ∷ r) ∷ []) ≡ a ∷ (b'*' ∷ r) ∷ []
    kept h = unfold before ends_prefix in ground arith
