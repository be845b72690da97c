-- ===== src/Datamodel/Query/Placeholders.antt =====
-- The placeholders that `sql()` finds in a query.
use mathlib.Core.Bool.{false≢true}
use mathlib.Core.Path.{subst}
use vignemale.Datamodel.Query.{
  Piece, Scan, close, compile, dollar, inside, minus, name_char, name_start, named, names_of,
  outer_step, outside, plain, scan, scan_step,
}
use vignemale.Datamodel.Query.Rendered.{Rendered, render-Rendered}
use vignemale.Prelude.{
  Bool-cases, List, [], ap, append-nil, append_assoc, arith, contains, inl, inr, is_empty, nat_eq,
  opt_eq, pair_eq, refl, sym, true, ℕ, ◌++◌, ◌==◌, ◌↔◌, ◌∙◌, ◌∷◌, ◌≡◌,
}
use vignemale.Prelude.Text.{Text, text_eq}
use vignemale.Python.{ok, ok-injective, raise-ne-ok}

-- The query that the pieces were cut from.
abbrev pub write_back : List Piece → Text
write_back [] = []
write_back (plain c ∷ ps) = c ∷ write_back ps
write_back (named n ∷ ps) = b'$' ∷ n ++ write_back ps

abbrev pending : Scan → Text
pending outside = []
pending dollar = b'$' ∷ []
pending (inside n) = b'$' ∷ n

write_back-append : (ps qs : List Piece) → write_back (ps ++ qs) ≡ write_back ps ++ write_back qs
write_back-append [] qs = refl
write_back-append (plain c ∷ ps) qs = ap (λ s. c ∷ s) (write_back-append ps qs)
write_back-append (named n ∷ ps) qs =
    ap (λ s. b'$' ∷ n ++ s) (write_back-append ps qs)
    ∙ ap (λ s. b'$' ∷ s) (sym (append_assoc n (write_back ps) (write_back qs)))

write_back-close : (st : Scan) → write_back (close st) ≡ pending st
write_back-close outside = refl
write_back-close dollar = refl
write_back-close (inside n) = ap (λ s. b'$' ∷ s) (append-nil n)

outer_step-pending :
    (st : Scan) (c : ℕ)
    → let (closed, next) = outer_step st c in
      write_back closed ++ pending next ≡ pending st ++ (c ∷ [])
outer_step-pending st c = elim (Bool-cases (c == b'$')) [
  | inl e ↦ rw e (
      ap (λ s. s ++ (b'$' ∷ [])) (write_back-close st)
      ∙ ap (λ d. pending st ++ (d ∷ [])) (sym ((nat_eq.beq_iff c b'$').0 e)))
  | inr e ↦ rw e (
      append-nil (write_back (close st ++ (plain c ∷ [])))
      ∙ write_back-append (close st) (plain c ∷ [])
      ∙ ap (λ s. s ++ (c ∷ [])) (write_back-close st))
]

scan_step-pending :
    (st : Scan) (c : ℕ)
    → let (closed, next) = scan_step st c in
      write_back closed ++ pending next ≡ pending st ++ (c ∷ [])
unfolding scan_step
scan_step-pending outside c = outer_step-pending outside c
scan_step-pending dollar c = elim (Bool-cases (name_start c)) [
  | inl e ↦ rw e refl
  | inr e ↦ rw e (outer_step-pending dollar c)
]
scan_step-pending (inside n) c = elim (Bool-cases (name_char c)) [
  | inl e ↦ rw e refl
  | inr e ↦ rw e (outer_step-pending (inside n) c)
]

scan-pending : (st : Scan) (s : Text) → write_back (scan st s) ≡ pending st ++ s
unfolding scan
scan-pending st [] = write_back-close st ∙ sym (append-nil (pending st))
scan-pending st (c ∷ s) =
    let closed = (scan_step st c).0 in
    let next = (scan_step st c).1 in
    write_back-append closed (scan next s)
    ∙ ap (λ t. write_back closed ++ t) (scan-pending next s)
    ∙ sym (append_assoc (write_back closed) (pending next) s)
    ∙ ap (λ t. t ++ s) (scan_step-pending st c)
    ∙ append_assoc (pending st) (c ∷ []) s

minus_none :
    (names others : List Text) (n : Text)
    → is_empty (minus names others) ≡ true
    → contains n names ≡ true
    → contains n others ≡ true
unfolding minus
minus_none [] others n h there = absurd (false≢true there)
minus_none (m ∷ names) others n h there =
    ground (arith, minus_none names others n, text_eq.beq_iff m n, text_eq.beq_iff n m, moved)
  where
    moved : m ≡ n → contains m others ≡ contains n others
    moved e = ap (λ k. contains k others) e

-- A query that `sql()` accepts is cut into pieces that make up the query again, its placeholders
-- name exactly the declared parameters, and the compiled query is the pieces with each placeholder
-- written as `$` and the number, counted from 1, of a declared parameter of its name.
pub compile-names :
    (order : List Text) (query compiled : Text)
    → compile order query ≡ ok compiled
    → (write_back (scan outside query) ≡ query)
      × Rendered order (scan outside query) compiled
      × ((n : Text)
          → (contains n (names_of (scan outside query)) ≡ true) ↔ (contains n order ≡ true))
unfolding compile
compile-names order query compiled h =
    let used = names_of (scan outside query) in
    elim (Bool-cases (is_empty (minus used order))) [
      | inr undeclared ↦ absurd (raise-ne-ok (rw (undeclared, compile) at h))
      | inl declared ↦ elim (Bool-cases (is_empty (minus order used))) [
        | inr unused ↦ absurd (raise-ne-ok (rw (declared, unused, compile) at h))
        | inl all_used ↦ (
          scan-pending outside query,
          subst (λ t. Rendered order (scan outside query) t)
              (ok-injective (rw (declared, all_used, compile) at h))
              (render-Rendered order (scan outside query) (λ n. minus_none used order n declared)),
          λ n. (minus_none used order n declared, minus_none order used n all_used),
        )
      ]
    ]
