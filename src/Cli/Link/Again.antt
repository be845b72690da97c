-- ===== src/Cli/Link/Again.antt =====
-- `_apply` on its own result.
use mathlib.Core.Bool.{false≢true}
use mathlib.Core.Option.{none-ne-some, some-injective}
use mathlib.Core.Path.{subst}
use vignemale.Cli.Link.{
  apply_lines, newline, newline_lines, opens_section, opens_table, replace_app, set_app, sets_app,
}
use vignemale.Cli.Link.Lines.{ends-newline, ends-open, last_full, lines-open, lines-terminated}
use vignemale.Cli.Link.Slug.{is_slug_char}
use vignemale.Cli.Link.Twice.{set_app-twice}
use vignemale.Prelude.{
  All, Bool, Bool-cases, List, Option-cases, [], ap, append-nil, arith, contains-append, false,
  if◌then◌else◌, inl, inr, is_empty, list_beq, nat_eq, not, opt_eq, or_else, pair_eq, refl, some,
  sym, true, ℕ, ◌++◌, ◌==◌, ◌∙◌, ◌∷◌, ◌≡◌,
}
use vignemale.Prelude.Text.{Text, codes, drop_while, ends_with, join, starts_with, text_eq}
use vignemale.Prelude.Text.Split.{Free}

-- `_apply` with the lines that end in \n only.
unfoldable pub apply_newlines : Text → Text → Text
apply_newlines text app = apply_lines (newline_lines text) text app

-- A property of lines that an edit keeps.
pub record Edits (line : Text) (Q : List Text → Type 0) : Type 0 where
  tail : (l : Text) (ls : List Text) → Q (l ∷ ls) → Q ls
  set_first : (l : Text) (ls : List Text) → Q (l ∷ ls) → Q (line ∷ ls)
  insert_second : (l : Text) (ls : List Text) → Q (l ∷ ls) → Q (l ∷ line ∷ ls)
  rejoin :
      (l : Text) (ls rest : List Text) → Q (l ∷ ls) → Q rest → is_empty rest ≡ false → Q (l ∷ rest)

module _ (line : Text) (Q : List Text → Type 0) (E : Edits line Q) where
  replace_app-keeps :
      (ls ls' : List Text) → replace_app line ls ≡ some ls' → Q ls → Q ls' × (is_empty ls' ≡ false)
  unfolding replace_app
  replace_app-keeps [] ls' h q = absurd (none-ne-some _ h)
  replace_app-keeps (l ∷ ls) ls' h q = elim (Bool-cases (opens_table l)) [
    | inl a ↦ absurd (none-ne-some _ (rw (a, replace_app) at h))
    | inr a ↦ elim (Bool-cases (sets_app l)) [
      | inl b ↦
          subst (λ x. Q x × (is_empty x ≡ false)) (some-injective _ _ (rw (a, b, replace_app) at h))
            (E.set_first l ls q, refl)
      | inr b ↦ elim (Option-cases (replace_app line ls)) [
        | inl e ↦ absurd (none-ne-some _ (rw (a, b, e, replace_app) at h))
        | inr (rest, e) ↦
            let (kept, some_line) = replace_app-keeps ls rest e (E.tail l ls q) in
            subst (λ x. Q x × (is_empty x ≡ false))
              (some-injective _ _ (rw (a, b, e, replace_app) at h))
              (E.rejoin l ls rest q kept some_line, refl)
      ]
    ]
  ]

  below-keeps :
      (l : Text) (ls : List Text) → Q (l ∷ ls) → Q (l ∷ or_else (replace_app line ls) (line ∷ ls))
  below-keeps l ls q = elim (Option-cases (replace_app line ls)) [
    | inl e ↦ rw e (E.insert_second l ls q)
    | inr (rest, e) ↦
        let (kept, some_line) = replace_app-keeps ls rest e (E.tail l ls q) in
        rw e (E.rejoin l ls rest q kept some_line)
  ]

  pub set_app-keeps :
      (ls ls' : List Text) → set_app line ls ≡ some ls' → Q ls → Q ls' × (is_empty ls' ≡ false)
  unfolding set_app
  set_app-keeps [] ls' h q = absurd (none-ne-some _ h)
  set_app-keeps (l ∷ ls) ls' h q = elim (Bool-cases (opens_section l)) [
    | inl a ↦
        subst (λ x. Q x × (is_empty x ≡ false)) (some-injective _ _ (rw (a, set_app) at h))
          (below-keeps l ls q, refl)
    | inr a ↦ elim (Option-cases (set_app line ls)) [
      | inl e ↦ absurd (none-ne-some _ (rw (a, e, set_app) at h))
      | inr (rest, e) ↦
          let (kept, some_line) = set_app-keeps ls rest e (E.tail l ls q) in
          subst (λ x. Q x × (is_empty x ≡ false)) (some-injective _ _ (rw (a, e, set_app) at h))
            (E.rejoin l ls rest q kept some_line, refl)
    ]
  ]

pub All-Edits : (P : Text → Type 0) (line : Text) → P line → Edits line (All P)
All-Edits P line free = record {
  tail = λ l ls q. q.1;
  set_first = λ l ls q. (free, q.1);
  insert_second = λ l ls q. (q.0, (free, q.1));
  rejoin = λ l ls rest q r n. (q.0, r);
}

full-tail : (l : Text) (ls : List Text) → last_full (l ∷ ls) ≡ true → last_full ls ≡ true
full-tail l [] h = refl
full-tail l (v ∷ ls) h = h

full-cons :
    (l : Text) (ls : List Text)
    → last_full ls ≡ true
    → is_empty ls ≡ false
    → last_full (l ∷ ls) ≡ true
full-cons l [] h n = absurd (false≢true (sym n))
full-cons l (v ∷ ls) h n = h

full-line :
    (line l : Text) (ls : List Text)
    → is_empty line ≡ false
    → last_full (l ∷ ls) ≡ true
    → last_full (line ∷ ls) ≡ true
full-line line l [] n h = ap not n
full-line line l (v ∷ ls) n h = h

full-Edits : (line : Text) → is_empty line ≡ false → Edits line (λ ls. last_full ls ≡ true)
full-Edits line n = record {
  tail = full-tail;
  set_first = λ l ls q. full-line line l ls n q;
  insert_second = λ l ls q. full-line line l ls n q;
  rejoin = λ l ls rest q r some_line. full-cons l rest r some_line;
}

abbrev pub app_line : Text → Text
app_line app = codes "app = \"" ++ app ++ codes "\""

pub line-sets : (app : Text) → sets_app (app_line app) ≡ true
unfolding sets_app drop_while starts_with list_beq
line-sets app = refl

pub line-no_table : (app : Text) → opens_table (app_line app) ≡ false
unfolding opens_table drop_while starts_with
line-no_table app = refl

pub line-Free : (app : Text) → Free b'\n' app → Free b'\n' (app_line app)
line-Free app h = ground (arith, contains-append b'\n' app (codes "\""))

pub slug-Free : (s : Text) → All (λ c. is_slug_char c ≡ true) s → Free b'\n' s
slug-Free [] h = refl
slug-Free (c ∷ s) h = let differ : (c == b'\n') ≡ false = char c h.0 in rw differ (slug-Free s h.1)
  where
    char : (c : ℕ) → is_slug_char c ≡ true → (c == b'\n') ≡ false
    char c h = ground arith

module _ (app : Text) (free : Free b'\n' app) where
  apply-some :
      (text : Text) (ls : List Text)
      → set_app (app_line app) (newline_lines text) ≡ some ls
      → apply_newlines text app
        ≡ join newline ls ++ (if ends_with text newline then newline else [])
  unfolding apply_newlines apply_lines
  apply-some text ls e = rw (e, apply_lines) refl

  -- A text that has the line in its section.
  pub linked-terminated :
      (w : Text) (ws : List Text)
      → All (Free b'\n') (w ∷ ws)
      → set_app (app_line app) (w ∷ ws) ≡ some (w ∷ ws)
      → apply_newlines (join newline (w ∷ ws) ++ newline) app ≡ join newline (w ∷ ws) ++ newline
  linked-terminated w ws h e =
      apply-some (join newline (w ∷ ws) ++ newline) (w ∷ ws)
        (ap (λ ls. set_app (app_line app) ls) (lines-terminated w ws h) ∙ e)
      ∙ ap (λ b. join newline (w ∷ ws) ++ (if b then newline else []))
          (ends-newline (join newline (w ∷ ws)))

  linked-open :
      (w : Text) (ws : List Text)
      → All (Free b'\n') (w ∷ ws)
      → last_full (w ∷ ws) ≡ true
      → set_app (app_line app) (w ∷ ws) ≡ some (w ∷ ws)
      → apply_newlines (join newline (w ∷ ws)) app ≡ join newline (w ∷ ws)
  linked-open w ws h full e =
      apply-some (join newline (w ∷ ws)) (w ∷ ws)
        (ap (λ ls. set_app (app_line app) ls) (lines-open w ws h full) ∙ e)
      ∙ ap (λ b. join newline (w ∷ ws) ++ (if b then newline else [])) (ends-open w ws h full)
      ∙ append-nil (join newline (w ∷ ws))

  linked :
      (ls : List Text) (ends : Bool)
      → is_empty ls ≡ false
      → All (Free b'\n') ls
      → (ends ≡ false → last_full ls ≡ true)
      → set_app (app_line app) ls ≡ some ls
      → apply_newlines (join newline ls ++ (if ends then newline else [])) app
        ≡ join newline ls ++ (if ends then newline else [])
  linked [] ends n h full e = absurd (false≢true (sym n))
  linked (w ∷ ws) true n h full e = linked-terminated w ws h e
  linked (w ∷ ws) false n h full e =
      subst (λ t. apply_newlines t app ≡ t) (sym (append-nil (join newline (w ∷ ws))))
        (linked-open w ws h (full refl) e)

  -- The section is there.
  pub edited :
      (text : Text) (ls ls' : List Text)
      → newline_lines text ≡ ls
      → All (Free b'\n') ls
      → (ends_with text newline ≡ false → last_full ls ≡ true)
      → set_app (app_line app) ls ≡ some ls'
      → apply_newlines (apply_newlines text app) app ≡ apply_newlines text app
  edited text ls ls' cut h full e =
      let (kept, some_line) =
        set_app-keeps (app_line app) (All (Free b'\n'))
          (All-Edits (Free b'\n') (app_line app) (line-Free app free)) ls ls' e h in
      subst (λ t. apply_newlines t app ≡ t)
        (sym (apply-some text ls' (ap (λ x. set_app (app_line app) x) cut ∙ e)))
        (linked ls' (ends_with text newline) some_line kept
          (λ f.
            (set_app-keeps (app_line app) (λ x. last_full x ≡ true) (full-Edits (app_line app) refl)
              ls ls' e (full f)).0)
          (set_app-twice (app_line app) (line-sets app) (line-no_table app) ls ls' e))
