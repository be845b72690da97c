-- ===== src/Cli/Link/Slug.antt =====
-- The name that `_slug` makes.
use mathlib.Core.List.{reverse, reverse_aux}
use vignemale.Cli.Link.{dashed, slug}
use vignemale.Prelude.{
  All, Bool, Bool-cases, [], arith, false, inl, inr, length, length-take-le, nat_eq, opt_eq,
  pair_eq, refl, suc, take, true, zero, ℕ, ◌==◌, ◌||◌, ◌∷◌, ◌≡◌, ◌≤◌,
}
use vignemale.Prelude.Text.{
  Text, drop_while, is_digit, is_lower, is_space, lower, strip_both, strip_right, text_eq,
}

abbrev pub is_slug_char : ℕ → Bool
is_slug_char c = is_lower c || is_digit c || (c == b'-')

abbrev Slugged : Text → Type 0
Slugged s = All (λ c. is_slug_char c ≡ true) s

dashed-Slugged : (open_run : Bool) (s : Text) → Slugged (dashed open_run s)
unfolding dashed
dashed-Slugged open_run [] = tt
dashed-Slugged true (c ∷ s) = elim (Bool-cases (is_lower c || is_digit c)) [
  | inl keeps ↦ rw (keeps, dashed) (ground arith, dashed-Slugged false s)
  | inr other ↦ rw (other, dashed) (dashed-Slugged true s)
]
dashed-Slugged false (c ∷ s) = elim (Bool-cases (is_lower c || is_digit c)) [
  | inl keeps ↦ rw (keeps, dashed) (ground arith, dashed-Slugged false s)
  | inr other ↦ rw (other, dashed) (refl, dashed-Slugged true s)
]

drop-Slugged : (p : ℕ → Bool) (s : Text) → Slugged s → Slugged (drop_while p s)
unfolding drop_while
drop-Slugged p [] h = tt
drop-Slugged p (c ∷ s) h = elim (Bool-cases (p c)) [
  | inl e ↦ rw e (drop-Slugged p s h.1)
  | inr e ↦ rw e h
]

reverse_aux-Slugged : (s t : Text) → Slugged s → Slugged t → Slugged (reverse_aux s t)
reverse_aux-Slugged [] t h k = k
reverse_aux-Slugged (c ∷ s) t h k = reverse_aux-Slugged s (c ∷ t) h.1 (h.0, k)

take-Slugged : (n : ℕ) (s : Text) → Slugged s → Slugged (take n s)
take-Slugged zero s h = tt
take-Slugged (suc n) [] h = tt
take-Slugged (suc n) (c ∷ s) h = (h.0, take-Slugged n s h.1)

-- The name of a project has at most 48 characters, lower case letters, digits and dashes.
pub slug-bounds :
    (name : Text) → (length (slug name) ≤ 48) × All (λ c. is_slug_char c ≡ true) (slug name)
unfolding slug strip_both strip_right
slug-bounds name =
    let p : ℕ → Bool = λ c. c == b'-' in
    let d = dashed false (strip_both is_space (lower name)) in
    (
      length-take-le 48 (strip_both p d),
      take-Slugged 48 (strip_both p d) (
          reverse_aux-Slugged (drop_while p (reverse (drop_while p d))) []
            (drop-Slugged p (reverse (drop_while p d)) (
              reverse_aux-Slugged (drop_while p d) []
                (drop-Slugged p d (dashed-Slugged false (strip_both is_space (lower name)))) tt))
            tt),
    )
