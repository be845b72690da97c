-- ===== src/Cli/Link/Lines.antt =====
-- The lines of a text, and the text of lines.
use mathlib.Core.Bool.{false≢true}
use mathlib.Core.List.{reverse, reverse-append, reverse-cons, reverse-reverse}
use mathlib.Core.Path.{subst}
use vignemale.Cli.Link.{drop_last_empty, newline, newline_lines}
use vignemale.Prelude.{
  All, Bool, Bool-cases, List, [], ap, append_assoc, arith, false, inl, inr, is_empty, nat_eq, not,
  refl, sym, true, ◌++◌, ◌∙◌, ◌∷◌, ◌≡◌, ◌⊎◌,
}
use vignemale.Prelude.Text.{Text, ends_with, join, split, starts_with}
use vignemale.Prelude.Text.Split.{Free, join-split, split-Free, split-join, split_cons}

-- The last line is not empty.
abbrev pub last_full : List Text → Bool
last_full [] = true
last_full (w ∷ []) = not (is_empty w)
last_full (w ∷ v ∷ ws) = last_full (v ∷ ws)

pub join-snoc :
    (w : Text) (ws : List Text) (v : Text)
    → join newline (w ∷ (ws ++ (v ∷ []))) ≡ join newline (w ∷ ws) ++ (b'\n' ∷ v)
unfolding join
join-snoc w [] v = refl
join-snoc w (u ∷ ws) v =
    ap (λ s. w ++ (b'\n' ∷ s)) (join-snoc u ws v)
    ∙ sym (append_assoc w (b'\n' ∷ join newline (u ∷ ws)) (b'\n' ∷ v))

drop-snoc : (ws : List Text) → drop_last_empty (ws ++ ([] ∷ [])) ≡ ws
drop-snoc [] = refl
drop-snoc ([] ∷ []) = refl
drop-snoc ((c ∷ w) ∷ []) = refl
drop-snoc ([] ∷ v ∷ ws) = ap (λ s. [] ∷ s) (drop-snoc (v ∷ ws))
drop-snoc ((c ∷ w) ∷ v ∷ ws) = ap (λ s. (c ∷ w) ∷ s) (drop-snoc (v ∷ ws))

drop-full : (ws : List Text) → last_full ws ≡ true → drop_last_empty ws ≡ ws
drop-full [] h = refl
drop-full ([] ∷ []) h = absurd (false≢true h)
drop-full ((c ∷ w) ∷ []) h = refl
drop-full ([] ∷ v ∷ ws) h = ap (λ s. [] ∷ s) (drop-full (v ∷ ws) h)
drop-full ((c ∷ w) ∷ v ∷ ws) h = ap (λ s. (c ∷ w) ∷ s) (drop-full (v ∷ ws) h)

snoc-full : (ws : List Text) → last_full (ws ++ ([] ∷ [])) ≡ false
snoc-full [] = refl
snoc-full (w ∷ []) = refl
snoc-full (w ∷ v ∷ ws) = snoc-full (v ∷ ws)

not_full-snoc : (ws : List Text) → last_full ws ≡ false → (vs : List Text) × (ws ≡ vs ++ ([] ∷ []))
not_full-snoc [] h = absurd (false≢true (sym h))
not_full-snoc ([] ∷ []) h = ([], refl)
not_full-snoc ((c ∷ w) ∷ []) h = absurd (false≢true (sym h))
not_full-snoc (w ∷ v ∷ ws) h = let (vs, e) = not_full-snoc (v ∷ ws) h in (w ∷ vs, ap (λ s. w ∷ s) e)

All-snoc :
    (ws : List Text) (v : Text)
    → All (Free b'\n') ws
    → Free b'\n' v
    → All (Free b'\n') (ws ++ (v ∷ []))
All-snoc [] v h k = (k, tt)
All-snoc (w ∷ ws) v h k = (h.0, All-snoc ws v h.1 k)

split-terminated :
    (w : Text) (ws : List Text)
    → All (Free b'\n') (w ∷ ws)
    → split b'\n' (join newline (w ∷ ws) ++ newline) ≡ w ∷ (ws ++ ([] ∷ []))
split-terminated w ws h =
    ap (λ s. split b'\n' s) (sym (join-snoc w ws []))
    ∙ split-join b'\n' w (ws ++ ([] ∷ [])) (h.0, All-snoc ws [] h.1 refl)

-- The lines of a text that ends its last line.
pub lines-terminated :
    (w : Text) (ws : List Text)
    → All (Free b'\n') (w ∷ ws)
    → newline_lines (join newline (w ∷ ws) ++ newline) ≡ w ∷ ws
unfolding newline_lines
lines-terminated w ws h = ap drop_last_empty (split-terminated w ws h) ∙ drop-snoc (w ∷ ws)

pub ends-newline : (s : Text) → ends_with (s ++ newline) newline ≡ true
unfolding ends_with starts_with
ends-newline s = ap (λ r. starts_with r newline) (reverse-append s newline)

ends-inv : (s : Text) → ends_with s newline ≡ true → (r : Text) × (s ≡ r ++ newline)
unfolding ends_with starts_with
ends-inv s h = from (reverse s) refl h
  where
    from :
        (t : Text) → reverse s ≡ t → starts_with t newline ≡ true → (r : Text) × (s ≡ r ++ newline)
    from [] e k = absurd (false≢true k)
    from (c ∷ t) e k =
        let same : c ≡ b'\n' = ground (arith, nat_eq.beq_iff c b'\n') in
        (
          reverse t,
          sym (reverse-reverse s)
              ∙ ap reverse e
              ∙ reverse-cons c t
              ∙ ap (λ d. reverse t ++ (d ∷ [])) same,
        )

-- The lines of a text that does not.
pub lines-open :
    (w : Text) (ws : List Text)
    → All (Free b'\n') (w ∷ ws)
    → last_full (w ∷ ws) ≡ true
    → newline_lines (join newline (w ∷ ws)) ≡ w ∷ ws
unfolding newline_lines
lines-open w ws h full = ap drop_last_empty (split-join b'\n' w ws h) ∙ drop-full (w ∷ ws) full

pub ends-open :
    (w : Text) (ws : List Text)
    → All (Free b'\n') (w ∷ ws)
    → last_full (w ∷ ws) ≡ true
    → ends_with (join newline (w ∷ ws)) newline ≡ false
ends-open w ws h full = elim (Bool-cases (ends_with (join newline (w ∷ ws)) newline)) [
  | inr f ↦ f
  | inl t ↦
      let (r, e) = ends-inv (join newline (w ∷ ws)) t in
      let (v, vs, cut) = split_cons b'\n' r in
      let parts : w ∷ ws ≡ (v ∷ vs) ++ ([] ∷ []) =
        sym (split-join b'\n' w ws h)
        ∙ ap (λ s. split b'\n' s)
            (e ∙ ap (λ s. s ++ newline) (sym (join-split b'\n' r) ∙ ap (λ x. join newline x) cut))
        ∙ split-terminated v vs (subst (λ x. All (Free b'\n') x) cut (split-Free b'\n' r)) in
      absurd (false≢true (sym (snoc-full (v ∷ vs)) ∙ ap last_full (sym parts) ∙ full))
]

All-init : (ws : List Text) (v : Text) → All (Free b'\n') (ws ++ (v ∷ [])) → All (Free b'\n') ws
All-init [] v h = tt
All-init (w ∷ ws) v h = (h.0, All-init ws v h.1)

abbrev pub Shape : Text → Type 0
Shape s =
    (s ≡ [])
    ⊎ ((w : Text) × (ws : List Text) × All (Free b'\n') (w ∷ ws)
        × (s ≡ join newline (w ∷ ws) ++ newline))
    ⊎ ((w : Text) × (ws : List Text) × All (Free b'\n') (w ∷ ws)
        × (last_full (w ∷ ws) ≡ true)
        × (s ≡ join newline (w ∷ ws)))

unfinished :
    (s : Text) (vs : List Text)
    → All (Free b'\n') (vs ++ ([] ∷ []))
    → s ≡ join newline (vs ++ ([] ∷ []))
    → Shape s
unfolding join
unfinished s [] h e = inl e
unfinished s (v ∷ vs) h e = inr (inl (v, vs, All-init (v ∷ vs) [] h, e ∙ join-snoc v vs []))

-- A text is empty, or ends its last line, or has a last line that is not empty.
pub text-cases : (s : Text) → Shape s
text-cases s =
    let (w, ws, cut) = split_cons b'\n' s in
    let free = subst (λ x. All (Free b'\n') x) cut (split-Free b'\n' s) in
    let whole : s ≡ join newline (w ∷ ws) =
      sym (join-split b'\n' s) ∙ ap (λ x. join newline x) cut in
    elim (Bool-cases (last_full (w ∷ ws))) [
      | inl full ↦ inr (inr (w, ws, free, full, whole))
      | inr empty_last ↦
          let (vs, e) = not_full-snoc (w ∷ ws) empty_last in
          unfinished s vs (subst (λ x. All (Free b'\n') x) e free)
            (whole ∙ ap (λ x. join newline x) e)
    ]
