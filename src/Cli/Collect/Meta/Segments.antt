-- ===== src/Cli/Collect/Meta/Segments.antt =====
-- The path of a `meta.Rpc` and the path that was written.
use mathlib.Core.Bool.{false≢true}
use vignemale.Cli.Collect.Meta.{Segment, literal, param, path_segments, segment, segments, wildcard}
use vignemale.Cli.Gateway.Prefix.{path-Free, IsSegment, path_of}
use vignemale.Prelude.{
  All, Bool-cases, List, [], ap, arith, false, inl, inr, is_empty, map, nat_eq, opt_eq, pair_eq,
  refl, some, sym, ◌==◌, ◌∙◌, ◌∷◌, ◌≡◌,
}
use vignemale.Prelude.Text.{Text, split, text_eq}
use vignemale.Prelude.Text.Split.{split-join}

-- A segment as it is written in a path.
abbrev pub written : Segment → Text
written (literal s) = s
written (param s) = b':' ∷ s
written (wildcard s) = b'*' ∷ s

segment-written :
    (w : Text) → is_empty w ≡ false → (s : Segment) × (segment w ≡ some s) × (written s ≡ w)
unfolding segment
segment-written [] h = absurd (false≢true (sym h))
segment-written (c ∷ w) h = elim (Bool-cases (c == b':')) [
  | inl colon ↦ (param w, rw colon, ground arith)
  | inr not_param ↦ elim (Bool-cases (c == b'*')) [
    | inl star ↦ (wildcard w, rw (not_param, star), ground arith)
    | inr plain ↦ (literal (c ∷ w), rw (not_param, plain), refl)
  ]
]

cons_both : {v w : Text} {vs ws : List Text} → v ≡ w → vs ≡ ws → v ∷ vs ≡ w ∷ ws
cons_both p q = λ i. p i ∷ q i

segments-written : (ws : List Text) → All IsSegment ws → map written (segments ws) ≡ ws
unfolding segments
segments-written [] h = refl
segments-written (w ∷ ws) h =
    let (s, e, p) = segment-written w h.0.0 in
    rw (e, segments) (cons_both p (segments-written ws h.1))

-- `_add_path` loses nothing of a path of segments: written out again, its segments are those of
-- the path.
pub path_segments-written :
    (w : Text) (ws : List Text)
    → All IsSegment (w ∷ ws)
    → map written (path_segments (some (path_of (w ∷ ws)))) ≡ w ∷ ws
unfolding path_segments segments segment split
path_segments-written w ws h =
    ap (λ segs. map written (segments ([] ∷ segs))) (split-join b'/' w ws (path-Free (w ∷ ws) h))
    ∙ segments-written (w ∷ ws) h
