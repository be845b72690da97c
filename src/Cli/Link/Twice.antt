-- ===== src/Cli/Link/Twice.antt =====
-- Linking twice.
use mathlib.Core.Option.{none-ne-some, some-injective}
use mathlib.Core.Path.{subst}
use vignemale.Cli.Link.{opens_section, opens_table, replace_app, section, set_app, sets_app}
use vignemale.Prelude.{
  Bool-cases, List, Option-cases, [], ap, false, inl, inr, list_beq, none, or_else, refl, some, sym,
  true, ◌++◌, ◌∙◌, ◌∷◌, ◌≡◌,
}
use vignemale.Prelude.Text.{Text, drop_while, strip_both, strip_right}

section_opens : opens_section section ≡ true
unfolding opens_section strip_both strip_right drop_while list_beq
section_opens = refl

module _ (line : Text) (sets : sets_app line ≡ true) (no_table : opens_table line ≡ false) where
  replace-set :
      (l : Text) (ls : List Text)
      → opens_table l ≡ false
      → sets_app l ≡ true
      → replace_app line (l ∷ ls) ≡ some (line ∷ ls)
  unfolding replace_app
  replace-set l ls a b = rw (a, b, replace_app) refl

  replace-other :
      (l : Text) (ls rest : List Text)
      → opens_table l ≡ false
      → sets_app l ≡ false
      → replace_app line ls ≡ some rest
      → replace_app line (l ∷ ls) ≡ some (l ∷ rest)
  unfolding replace_app
  replace-other l ls rest a b e = rw (a, b, e, replace_app) refl

  -- The result of a replacement is its own replacement.
  replace_app-twice :
      (ls ls' : List Text) → replace_app line ls ≡ some ls' → replace_app line ls' ≡ some ls'
  unfolding replace_app
  replace_app-twice [] ls' h = absurd (none-ne-some _ h)
  replace_app-twice (l ∷ ls) ls' h = elim (Bool-cases (opens_table l)) [
    | inl a ↦ absurd (none-ne-some _ (rw (a, replace_app) at h))
    | inr a ↦ elim (Bool-cases (sets_app l)) [
      | inl b ↦
          subst (λ x. replace_app line x ≡ some x)
            (some-injective _ _ (sym (replace-set l ls a b) ∙ h))
            (replace-set line ls no_table sets)
      | inr b ↦ elim (Option-cases (replace_app line ls)) [
        | inl e ↦ absurd (none-ne-some _ (rw (a, b, e, replace_app) at h))
        | inr (rest, e) ↦
            subst (λ x. replace_app line x ≡ some x)
              (some-injective _ _ (sym (replace-other l ls rest a b e) ∙ h))
              (replace-other l rest rest a b (replace_app-twice ls rest e))
      ]
    ]
  ]

  set-section :
      (l : Text) (ls : List Text)
      → opens_section l ≡ true
      → set_app line (l ∷ ls) ≡ some (l ∷ or_else (replace_app line ls) (line ∷ ls))
  unfolding set_app
  set-section l ls a = rw (a, set_app) refl

  set-other :
      (l : Text) (ls rest : List Text)
      → opens_section l ≡ false
      → set_app line ls ≡ some rest
      → set_app line (l ∷ ls) ≡ some (l ∷ rest)
  unfolding set_app
  set-other l ls rest a e = rw (a, e, set_app) refl

  -- What stands below the section.
  below-twice :
      (ls : List Text)
      → replace_app line (or_else (replace_app line ls) (line ∷ ls))
        ≡ some (or_else (replace_app line ls) (line ∷ ls))
  below-twice ls = elim (Option-cases (replace_app line ls)) [
    | inl e ↦ rw e (replace-set line ls no_table sets)
    | inr (rest, e) ↦ rw e (replace_app-twice ls rest e)
  ]

  pub set_app-twice :
      (ls ls' : List Text) → set_app line ls ≡ some ls' → set_app line ls' ≡ some ls'
  unfolding set_app
  set_app-twice [] ls' h = absurd (none-ne-some _ h)
  set_app-twice (l ∷ ls) ls' h = elim (Bool-cases (opens_section l)) [
    | inl a ↦
        let below = or_else (replace_app line ls) (line ∷ ls) in
        subst (λ x. set_app line x ≡ some x) (some-injective _ _ (sym (set-section l ls a) ∙ h))
          (set-section l below a ∙ ap (λ o. some (l ∷ or_else o (line ∷ below))) (below-twice ls))
    | inr a ↦ elim (Option-cases (set_app line ls)) [
      | inl e ↦ absurd (none-ne-some _ (rw (a, e, set_app) at h))
      | inr (rest, e) ↦
          subst (λ x. set_app line x ≡ some x)
            (some-injective _ _ (sym (set-other l ls rest a e) ∙ h))
            (set-other l rest rest a (set_app-twice ls rest e))
    ]
  ]

  -- A section at the end.
  pub set_app-added :
      (ls : List Text)
      → set_app line ls ≡ none
      → set_app line (ls ++ (section ∷ line ∷ [])) ≡ some (ls ++ (section ∷ line ∷ []))
  unfolding set_app
  set_app-added [] h =
      set-section section (line ∷ []) section_opens
      ∙ ap (λ o. some (section ∷ or_else o (line ∷ line ∷ []))) (replace-set line [] no_table sets)
  set_app-added (l ∷ ls) h = elim (Bool-cases (opens_section l)) [
    | inl a ↦ absurd (none-ne-some _ (sym h ∙ set-section l ls a))
    | inr a ↦ elim (Option-cases (set_app line ls)) [
      | inr (rest, e) ↦ absurd (none-ne-some _ (sym h ∙ set-other l ls rest a e))
      | inl e ↦
          set-other l (ls ++ (section ∷ line ∷ [])) (ls ++ (section ∷ line ∷ [])) a
            (set_app-added ls e)
    ]
  ]
