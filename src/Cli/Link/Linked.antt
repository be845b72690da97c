-- ===== src/Cli/Link/Linked.antt =====
-- Linking a second time to the same project.
use mathlib.Core.Bool.{false≢true}
use mathlib.Core.Option.{none-ne-some}
use mathlib.Core.Path.{subst}
use vignemale.Cli.Link.{
  apply_lines, apply_link, newline, newline_lines, opens_section, section, set_app, slug,
}
use vignemale.Cli.Link.Again.{
  app_line, apply_newlines, edited, line-Free, line-no_table, line-sets, linked-terminated,
  slug-Free,
}
use vignemale.Cli.Link.Lines.{
  ends-newline, ends-open, join-snoc, last_full, lines-open, lines-terminated, text-cases,
}
use vignemale.Cli.Link.Plain.{Plain, apply_link-eq, apply_newlines-Plain, slug-Plain}
use vignemale.Cli.Link.Slug.{slug-bounds}
use vignemale.Cli.Link.Twice.{set_app-added}
use vignemale.Prelude.{
  All, Bool-cases, List, Option-cases, [], ap, append_assoc, false, if◌then◌else◌, inl, inr,
  is_empty, none, not, refl, sym, true, ℕ, ◌&&◌, ◌++◌, ◌||◌, ◌∙◌, ◌∷◌, ◌≡◌, ◌⊎◌,
}
use vignemale.Prelude.Text.{Text, codes, ends_with, join, split}
use vignemale.Prelude.Text.Split.{Free}

join-two :
    (w : Text) (ws : List Text) (u v : Text)
    → join newline (w ∷ (ws ++ (u ∷ v ∷ [])))
      ≡ join newline (w ∷ ws) ++ (b'\n' ∷ (u ++ (b'\n' ∷ v)))
unfolding join
join-two w [] u v = refl
join-two w (x ∷ ws) u v =
    ap (λ s. w ++ (b'\n' ∷ s)) (join-two x ws u v)
    ∙ sym (append_assoc w (b'\n' ∷ join newline (x ∷ ws)) (b'\n' ∷ (u ++ (b'\n' ∷ v))))

All-append :
    (ws vs : List Text) → All (Free b'\n') ws → All (Free b'\n') vs → All (Free b'\n') (ws ++ vs)
All-append [] vs h k = k
All-append (w ∷ ws) vs h k = (h.0, All-append ws vs h.1 k)

nested : (a b c d e f : Text) → a ++ b ++ c ++ d ++ e ++ f ≡ a ++ (b ++ (c ++ (d ++ (e ++ f))))
nested a b c d e f =
    append_assoc (a ++ b ++ c ++ d) e f
    ∙ append_assoc (a ++ b ++ c) d (e ++ f)
    ∙ append_assoc (a ++ b) c (d ++ (e ++ f))
    ∙ append_assoc a b (c ++ (d ++ (e ++ f)))

module _ (app : Text) (free : Free b'\n' app) where
  -- What is added below a text that ends its last line.
  abbrev added : Text
  added = section ++ (newline ++ (app_line app ++ newline))

  join-added :
      (w : Text) (ws : List Text)
      → join newline (w ∷ ws) ++ (b'\n' ∷ added)
        ≡ join newline (w ∷ (ws ++ (section ∷ app_line app ∷ []))) ++ newline
  join-added w ws =
      sym
        (append_assoc (join newline (w ∷ ws)) (b'\n' ∷ (section ++ (b'\n' ∷ app_line app))) newline)
      ∙ ap (λ s. s ++ newline) (sym (join-two w ws section (app_line app)))

  added-linked :
      (w : Text) (ws : List Text)
      → All (Free b'\n') (w ∷ ws)
      → set_app (app_line app) (w ∷ ws) ≡ none
      → apply_newlines (join newline (w ∷ ws) ++ (b'\n' ∷ added)) app
        ≡ join newline (w ∷ ws) ++ (b'\n' ∷ added)
  added-linked w ws h e =
      subst (λ t. apply_newlines t app ≡ t) (sym (join-added w ws))
        (linked-terminated app free w (ws ++ (section ∷ app_line app ∷ []))
          (All-append (w ∷ ws) (section ∷ app_line app ∷ []) h (refl, (line-Free app free, tt)))
          (set_app-added (app_line app) (line-sets app) (line-no_table app) (w ∷ ws) e))

  blank-none :
      (ls : List Text)
      → set_app (app_line app) ls ≡ none
      → set_app (app_line app) (ls ++ ([] ∷ [])) ≡ none
  unfolding set_app
  blank-none [] h = refl
  blank-none (l ∷ ls) h = elim (Bool-cases (opens_section l)) [
    | inl a ↦ absurd (none-ne-some _ (sym (rw (a, set_app) at h)))
    | inr a ↦ elim (Option-cases (set_app (app_line app) ls)) [
      | inr (rest, e) ↦ absurd (none-ne-some _ (sym (rw (a, e, set_app) at h)))
      | inl e ↦ let ih = blank-none ls e in rw (a, set_app, ih) refl
    ]
  ]

  -- What `_apply` makes of a text without the section, from its prefix.
  abbrev sep_of : Text → Text
  sep_of prefix =
      if not (is_empty prefix) && not (ends_with prefix (codes "\n\n")) then newline else []

  abbrev appended : Text → Text
  appended prefix = prefix ++ (sep_of prefix ++ added)

  abbrev prefix_of : Text → Text
  prefix_of text = if ends_with text newline || is_empty text then text else text ++ newline

  apply-none :
      (text : Text)
      → set_app (app_line app) (newline_lines text) ≡ none
      → apply_newlines text app ≡ appended (prefix_of text)
  unfolding apply_newlines apply_lines
  apply-none text e =
      rw (e, apply_lines)
        (nested (prefix_of text) (sep_of (prefix_of text)) section newline (app_line app) newline)

  -- A text that ends its last line, with the section below.
  below :
      (w : Text) (ws : List Text) (sep : Text)
      → (sep ≡ []) ⊎ (sep ≡ newline)
      → All (Free b'\n') (w ∷ ws)
      → set_app (app_line app) (w ∷ ws) ≡ none
      → apply_newlines ((join newline (w ∷ ws) ++ newline) ++ (sep ++ added)) app
        ≡ (join newline (w ∷ ws) ++ newline) ++ (sep ++ added)
  below w ws sep (inl no_blank) h e =
      subst (λ t. apply_newlines t app ≡ t)
        (sym (
          ap (λ x. (join newline (w ∷ ws) ++ newline) ++ (x ++ added)) no_blank
          ∙ append_assoc (join newline (w ∷ ws)) newline added))
        (added-linked w ws h e)
  below w ws sep (inr blank) h e =
      subst (λ t. apply_newlines t app ≡ t)
        (ap (λ s. s ++ (b'\n' ∷ added)) (join-snoc w ws [])
          ∙ ap (λ x. (join newline (w ∷ ws) ++ newline) ++ (x ++ added)) (sym blank))
        (added-linked w (ws ++ ([] ∷ [])) (All-append (w ∷ ws) ([] ∷ []) h (refl, tt))
          (blank-none (w ∷ ws) e))

  sep-cases : (prefix : Text) → (sep_of prefix ≡ []) ⊎ (sep_of prefix ≡ newline)
  sep-cases prefix =
      elim (Bool-cases (not (is_empty prefix) && not (ends_with prefix (codes "\n\n")))) [
        | inl t ↦ inr (rw t refl)
        | inr f ↦ inl (rw f refl)
      ]

  -- A text without the section, whose prefix has these lines.
  appended-twice :
      (text w : Text) (ws : List Text)
      → prefix_of text ≡ join newline (w ∷ ws) ++ newline
      → All (Free b'\n') (w ∷ ws)
      → set_app (app_line app) (w ∷ ws) ≡ none
      → set_app (app_line app) (newline_lines text) ≡ none
      → apply_newlines (apply_newlines text app) app ≡ apply_newlines text app
  appended-twice text w ws p h e k =
      subst (λ t. apply_newlines t app ≡ t) (sym (apply-none text k ∙ ap appended p))
        (below w ws (sep_of (join newline (w ∷ ws) ++ newline))
          (sep-cases (join newline (w ∷ ws) ++ newline)) h e)

  empty-twice : apply_newlines (apply_newlines [] app) app ≡ apply_newlines [] app
  unfolding newline_lines set_app split join ends_with
  empty-twice =
      subst (λ t. apply_newlines t app ≡ t) (sym (apply-none [] refl))
        (linked-terminated app free section (app_line app ∷ []) (refl, (line-Free app free, tt))
          (set_app-added (app_line app) (line-sets app) (line-no_table app) [] refl))

  terminated-twice :
      (w : Text) (ws : List Text)
      → All (Free b'\n') (w ∷ ws)
      → apply_newlines (apply_newlines (join newline (w ∷ ws) ++ newline) app) app
        ≡ apply_newlines (join newline (w ∷ ws) ++ newline) app
  terminated-twice w ws h =
      let text = join newline (w ∷ ws) ++ newline in
      let cut = lines-terminated w ws h in
      let ends = ends-newline (join newline (w ∷ ws)) in
      elim (Option-cases (set_app (app_line app) (w ∷ ws))) [
        | inr (ls, e) ↦
            edited app free text (w ∷ ws) ls cut h (λ f. absurd (false≢true (sym f ∙ ends))) e
        | inl e ↦
            appended-twice text w ws (rw ends refl) h e (ap (λ x. set_app (app_line app) x) cut ∙ e)
      ]

  open-twice :
      (c : ℕ) (t w : Text) (ws : List Text)
      → All (Free b'\n') (w ∷ ws)
      → last_full (w ∷ ws) ≡ true
      → c ∷ t ≡ join newline (w ∷ ws)
      → apply_newlines (apply_newlines (c ∷ t) app) app ≡ apply_newlines (c ∷ t) app
  open-twice c t w ws h full whole =
      let cut : newline_lines (c ∷ t) ≡ w ∷ ws = ap newline_lines whole ∙ lines-open w ws h full in
      let ends : ends_with (c ∷ t) newline ≡ false =
        ap (λ x. ends_with x newline) whole ∙ ends-open w ws h full in
      elim (Option-cases (set_app (app_line app) (w ∷ ws))) [
        | inr (ls, e) ↦ edited app free (c ∷ t) (w ∷ ws) ls cut h (λ f. full) e
        | inl e ↦
            appended-twice (c ∷ t) w ws (rw ends (ap (λ x. x ++ newline) whole)) h e
              (ap (λ x. set_app (app_line app) x) cut ∙ e)
      ]

  apply-twice :
      (text : Text) → apply_newlines (apply_newlines text app) app ≡ apply_newlines text app
  apply-twice [] = empty-twice
  apply-twice (c ∷ t) = elim (text-cases (c ∷ t)) [
    | inl e ↦
        subst (λ x. apply_newlines (apply_newlines x app) app ≡ apply_newlines x app) (sym e)
          empty-twice
    | inr (inl (w, ws, h, e)) ↦
        subst (λ x. apply_newlines (apply_newlines x app) app ≡ apply_newlines x app) (sym e)
          (terminated-twice w ws h)
    | inr (inr (w, ws, h, full, e)) ↦ open-twice c t w ws h full e
  ]

-- Linking a file a second time to the same project changes nothing of its text, whatever the name, if
-- the text has no line break other than \n.
pub apply_link-twice :
    (name text : Text)
    → Plain text
    → apply_link (apply_link text (slug name)) (slug name) ≡ apply_link text (slug name)
apply_link-twice name text kept =
    let app = slug name in
    let chars = (slug-bounds name).1 in
    let once = apply_link-eq text app kept in
    ap (λ t. apply_link t app) once
    ∙ apply_link-eq (apply_newlines text app) app
        (apply_newlines-Plain text app kept (slug-Plain app chars))
    ∙ apply-twice app (slug-Free app chars) text
    ∙ sym once
