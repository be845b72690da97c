-- ===== src/Cli/Link/Plain.antt =====
-- Texts whose only line break is \n: their lines, and what `_apply` makes of them.
use mathlib.Core.Path.{subst}
use vignemale.Cli.Link.{
  apply_lines, apply_link, drop_last_empty, is_other_break, lines, newline, newline_lines, section,
  set_app, unify_breaks,
}
use vignemale.Cli.Link.Again.{All-Edits, app_line, apply_newlines, set_app-keeps}
use vignemale.Cli.Link.Slug.{is_slug_char}
use vignemale.Prelude.{
  All, Bool, Bool-cases, List, Option-cases, [], ap, arith, false, if◌then◌else◌, inl, inr,
  is_empty, nat_eq, opt_eq, pair_eq, refl, true, ℕ, ◌++◌, ◌==◌, ◌||◌, ◌∷◌, ◌≡◌,
}
use vignemale.Prelude.Text.{Text, codes, ends_with, join, split, text_eq}
use vignemale.Prelude.Text.Split.{split_cons}

-- No character of the text ends a line, but for \n.
abbrev pub Plain : Text → Type 0
Plain s = All (λ c. is_other_break c ≡ false) s

not_return : (c : ℕ) → is_other_break c ≡ false → (c == 13) ≡ false
unfolding is_other_break
not_return c h = ground arith

unify_breaks-Plain : (s : Text) → Plain s → unify_breaks s ≡ s
unfolding unify_breaks
unify_breaks-Plain [] h = refl
unify_breaks-Plain (c ∷ s) (h, hs) =
    let ih = unify_breaks-Plain s hs in rw (not_return c h, h) (ap (λ t. c ∷ t) ih)

-- On such a text the lines are those that end in \n.
pub apply_link-eq : (text app : Text) → Plain text → apply_link text app ≡ apply_newlines text app
unfolding apply_link apply_newlines lines
apply_link-eq text app h =
    ap (λ s. apply_lines (newline_lines s) text app) (unify_breaks-Plain text h)

Plain-append : (s t : Text) → Plain s → Plain t → Plain (s ++ t)
Plain-append [] t h k = k
Plain-append (c ∷ s) t h k = (h.0, Plain-append s t h.1 k)

newline-Plain : Plain newline
unfolding is_other_break
newline-Plain = (refl, tt)

split-Plain : (s : Text) → Plain s → All Plain (split b'\n' s)
unfolding split
split-Plain [] h = (tt, tt)
split-Plain (c ∷ s) (h, hs) =
    let (w, ws, cut) = split_cons b'\n' s in
    let ih : All Plain (w ∷ ws) = subst (λ x. All Plain x) cut (split-Plain s hs) in
    elim (Bool-cases (c == b'\n')) [
      | inl ends ↦ rw (ends, cut) (tt, ih)
      | inr goes_on ↦ rw (goes_on, cut) ((h, ih.0), ih.1)
    ]

drop_last_empty-Plain : (ws : List Text) → All Plain ws → All Plain (drop_last_empty ws)
drop_last_empty-Plain [] h = tt
drop_last_empty-Plain ([] ∷ []) h = tt
drop_last_empty-Plain ((c ∷ w) ∷ []) h = h
drop_last_empty-Plain ([] ∷ v ∷ ws) h = (h.0, drop_last_empty-Plain (v ∷ ws) h.1)
drop_last_empty-Plain ((c ∷ w) ∷ v ∷ ws) h = (h.0, drop_last_empty-Plain (v ∷ ws) h.1)

newline_lines-Plain : (s : Text) → Plain s → All Plain (newline_lines s)
unfolding newline_lines
newline_lines-Plain s h = drop_last_empty-Plain (split b'\n' s) (split-Plain s h)

join-Plain : (ws : List Text) → All Plain ws → Plain (join newline ws)
unfolding join
join-Plain [] h = tt
join-Plain (w ∷ []) h = h.0
join-Plain (w ∷ v ∷ ws) h =
    Plain-append w (b'\n' ∷ join newline (v ∷ ws)) h.0
      (Plain-append newline (join newline (v ∷ ws)) newline-Plain (join-Plain (v ∷ ws) h.1))

pub slug-Plain : (s : Text) → All (λ c. is_slug_char c ≡ true) s → Plain s
unfolding is_other_break
slug-Plain [] h = tt
slug-Plain (c ∷ s) h = (char c h.0, slug-Plain s h.1)
  where
    char : (c : ℕ) → is_slug_char c ≡ true → is_other_break c ≡ false
    char c h = ground arith

line-Plain : (app : Text) → Plain app → Plain (app_line app)
unfolding is_other_break
line-Plain app h =
    Plain-append (codes "app = \"" ++ app) (codes "\"")
      (Plain-append (codes "app = \"") app
        (refl, (refl, (refl, (refl, (refl, (refl, (refl, tt))))))) h)
      (refl, tt)

if-Plain : (b : Bool) (s t : Text) → Plain s → Plain t → Plain (if b then s else t)
if-Plain true s t h k = h
if-Plain false s t h k = k

section-Plain : Plain section
unfolding is_other_break
section-Plain = ground arith

-- The result has no other line break either.
pub apply_newlines-Plain :
    (text app : Text) → Plain text → Plain app → Plain (apply_newlines text app)
unfolding apply_newlines apply_lines
apply_newlines-Plain text app h k =
    let line = line-Plain app k in
    elim (Option-cases (set_app (app_line app) (newline_lines text))) [
      | inr (ls, e) ↦
          let (kept, _) =
            set_app-keeps (app_line app) (All Plain) (All-Edits Plain (app_line app) line)
              (newline_lines text) ls e (newline_lines-Plain text h) in
          rw (e, apply_lines)
            (Plain-append (join newline ls) (if ends_with text newline then newline else [])
              (join-Plain ls kept) (if-Plain (ends_with text newline) newline [] newline-Plain tt))
      | inl e ↦
          let prefix =
            if-Plain (ends_with text newline || is_empty text) text (text ++ newline) h
              (Plain-append text newline h newline-Plain) in
          rw (e, apply_lines)
            (Plain-append _ newline
              (Plain-append _ (app_line app)
                (Plain-append _ newline
                  (Plain-append _ section
                    (Plain-append _ _ prefix (if-Plain _ newline [] newline-Plain tt))
                    section-Plain)
                  newline-Plain)
                line)
              newline-Plain)
    ]
