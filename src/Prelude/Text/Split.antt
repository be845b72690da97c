-- ===== src/Prelude/Text/Split.antt =====
-- `split`, `join` and `strip` undo one another.
use mathlib.Core.Path.{◌≡◌, refl, ap, sym, ◌∙◌}
use mathlib.Core.Bool.{Bool, false, false≢true}
use mathlib.Core.Logic.{inl, inr}
use mathlib.Core.List.{List, [], ◌∷◌, ◌++◌, reverse, reverse-append, reverse-reverse}
use native.Mathlib.Omega.{arith}
use Prim.Native.Nat.{ℕ}
use vignemale.Prelude.Tests.{◌==◌, nat_eq, Bool-cases}
use vignemale.Prelude.Lists.{All, contains, is_empty}
use vignemale.Prelude.Text.{Text, split, join, drop_while, strip_right, strip_both}

-- No character of the text is `d`.
abbrev pub Free : ℕ → Text → Type 0
Free d s = contains d s ≡ false

split-append : (d : ℕ) (w s : Text) → Free d w → split d (w ++ d ∷ s) ≡ w ∷ split d s
unfolding split
split-append d [] s h = ground arith
split-append d (c ∷ w) s h = ground (arith, split-append d w s)

split_word : (d : ℕ) (w : Text) → Free d w → split d w ≡ w ∷ []
unfolding split
split_word d [] h = refl
split_word d (c ∷ w) h = ground (arith, split_word d w)

-- `d.join(ws).split(d) == ws` for a list that is not empty of words without `d`.
pub split-join :
    (d : ℕ) (w : Text) (ws : List Text)
    → All (Free d) (w ∷ ws)
    → split d (join (d ∷ []) (w ∷ ws)) ≡ w ∷ ws
unfolding join
split-join d w [] h = split_word d w h.0
split-join d w (v ∷ ws) h =
    split-append d w (join (d ∷ []) (v ∷ ws)) h.0 ∙ ap (λ x. w ∷ x) (split-join d v ws h.1)

-- A split has a first part.
pub split_cons : (d : ℕ) (s : Text) → (w : Text) × (ws : List Text) × (split d s ≡ w ∷ ws)
unfolding split
split_cons d [] = ([], [], refl)
split_cons d (c ∷ s) =
    let (w, ws, e) = split_cons d s in
    elim (Bool-cases (c == d)) [
      | inl cut ↦ ([], split d s, rw cut)
      | inr more ↦ (c ∷ w, ws, rw (more, e))
    ]

join-push :
    (d c : ℕ) (w : Text) (ws : List Text)
    → join (d ∷ []) ((c ∷ w) ∷ ws) ≡ c ∷ join (d ∷ []) (w ∷ ws)
unfolding join
join-push d c w [] = refl
join-push d c w (v ∷ ws) = refl

-- `d.join(s.split(d)) == s`
pub join-split : (d : ℕ) (s : Text) → join (d ∷ []) (split d s) ≡ s
unfolding join split
join-split d [] = refl
join-split d (c ∷ s) =
    let (w, ws, e) = split_cons d s in
    let ih = join-split d s in
    elim (Bool-cases (c == d)) [
      | inl cut ↦ rw (cut, e) (ground (arith, (rw e at ih)))
      | inr more ↦ rw (more, e) (join-push d c w ws ∙ ap (λ x. c ∷ x) (rw e at ih))
    ]

-- Every part of a split is free of the separator.
pub split-Free : (d : ℕ) (s : Text) → All (Free d) (split d s)
unfolding split
split-Free d [] = (refl, tt)
split-Free d (c ∷ s) =
    let (w, ws, e) = split_cons d s in
    let ih : All (Free d) (w ∷ ws) = rw e at (split-Free d s) in
    elim (Bool-cases (c == d)) [
      | inl cut ↦ rw (cut, e) (refl, ih)
      | inr more ↦ rw (more, e) (ground arith, ih.1)
    ]

-- The last character of a text that is not empty.
EndsOff : (ℕ → Bool) → Text → Type 0
EndsOff p s = (t : Text) × (c : ℕ) × (s ≡ t ++ c ∷ []) × (p c ≡ false)

strip_right_off : (p : ℕ → Bool) (s : Text) → EndsOff p s → strip_right p s ≡ s
unfolding strip_right drop_while EndsOff
strip_right_off p s (t, c, e, off) = rw kept (reverse-reverse s)
  where
    kept : drop_while p (reverse s) ≡ reverse s
    kept = rw (e, reverse-append, off)

-- A word that has a character and no `d`.
abbrev pub IsWord : ℕ → Text → Type 0
IsWord d s = (is_empty s ≡ false) × Free d s

abbrev is_char : ℕ → ℕ → Bool
is_char d c = c == d

EndsOff-cons : (p : ℕ → Bool) (c : ℕ) (s : Text) → EndsOff p s → EndsOff p (c ∷ s)
unfolding EndsOff
EndsOff-cons p c s (t, x, e, off) = (c ∷ t, x, ap (λ z. c ∷ z) e, off)

EndsOff-append : (p : ℕ → Bool) (r s : Text) → EndsOff p s → EndsOff p (r ++ s)
EndsOff-append p [] s h = h
EndsOff-append p (c ∷ r) s h = EndsOff-cons p c (r ++ s) (EndsOff-append p r s h)

EndsOff-word : (d : ℕ) (s : Text) → IsWord d s → EndsOff (is_char d) s
unfolding EndsOff
EndsOff-word d [] h = absurd (false≢true (sym h.0))
EndsOff-word d (c ∷ []) h = ([], c, refl, ground arith)
EndsOff-word d (c ∷ (x ∷ s)) h =
    EndsOff-cons (is_char d) c (x ∷ s) (EndsOff-word d (x ∷ s) (refl, ground arith))

EndsOff-join :
    (d : ℕ) (w : Text) (ws : List Text)
    → All (IsWord d) (w ∷ ws)
    → EndsOff (is_char d) (join (d ∷ []) (w ∷ ws))
unfolding join
EndsOff-join d w [] h = EndsOff-word d w h.0
EndsOff-join d w (v ∷ ws) h =
    EndsOff-append (is_char d) w (d ∷ join (d ∷ []) (v ∷ ws))
      (EndsOff-cons (is_char d) d (join (d ∷ []) (v ∷ ws)) (EndsOff-join d v ws h.1))

drop_while_word :
    (d : ℕ) (w : Text) (ws : List Text)
    → IsWord d w
    → drop_while (is_char d) (join (d ∷ []) (w ∷ ws)) ≡ join (d ∷ []) (w ∷ ws)
unfolding drop_while join
drop_while_word d [] ws h = absurd (false≢true (sym h.0))
drop_while_word d (c ∷ w) [] h = ground arith
drop_while_word d (c ∷ w) (v ∷ ws) h = ground arith

-- `(d + d.join(ws)).strip(d)` is `d.join(ws)`, for words.
pub strip-join :
    (d : ℕ) (w : Text) (ws : List Text)
    → All (IsWord d) (w ∷ ws)
    → strip_both (λ c. c == d) (d ∷ join (d ∷ []) (w ∷ ws)) ≡ join (d ∷ []) (w ∷ ws)
unfolding strip_both
strip-join d w ws h =
    ap (strip_right (is_char d)) (first ∙ drop_while_word d w ws h.0)
    ∙ strip_right_off (is_char d) (join (d ∷ []) (w ∷ ws)) (EndsOff-join d w ws h)
  where
    first :
        drop_while (is_char d) (d ∷ join (d ∷ []) (w ∷ ws))
        ≡ drop_while (is_char d) (join (d ∷ []) (w ∷ ws))
    first = unfold drop_while in ground arith
