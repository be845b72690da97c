-- ===== src/Sqldb/Migrate/Literal.antt =====
-- The SQL literal that `migrate` writes a name as.
use vignemale.Prelude.{
  Bool-cases, Option, [], ap, false, if◌then◌else◌, inl, inr, nat_eq, none, opt_eq, pair_eq, refl,
  some, sym, ℕ, ◌++◌, ◌==◌, ◌∙◌, ◌∷◌, ◌≡◌,
}
use vignemale.Prelude.Text.{Text, text_eq}
use vignemale.Sqldb.Migrate.{escape, quote}

-- How SQL reads a literal, from behind its opening quote: a doubled quote is a quote, a single one
-- ends the literal.
abbrev pub add_char : ℕ → Option (Text × Text) → Option (Text × Text)
add_char c none = none
add_char c (some (s, rest)) = some (c ∷ s, rest)

unfoldable pub read_literal : Text → Option (Text × Text)
read_literal [] = none
read_literal (c ∷ []) = if c == quote then some ([], []) else none
read_literal (c ∷ b ∷ s) =
    let after = read_literal s in
    let next = read_literal (b ∷ s) in
    if c == quote
    then if b == quote then add_char quote after else some ([], b ∷ s)
    else add_char c next

-- The text does not begin with a quote.
abbrev pub NoQuote : Text → Type 0
NoQuote [] = Unit
NoQuote (c ∷ s) = (c == quote) ≡ false

read_end : (rest : Text) → NoQuote rest → read_literal (quote ∷ rest) ≡ some ([], rest)
unfolding read_literal
read_end [] h = refl
read_end (c ∷ rest) h = rw h

read_plain :
    (c : ℕ) (s rest : Text)
    → (c == quote) ≡ false
    → read_literal (c ∷ (s ++ (quote ∷ rest))) ≡ add_char c (read_literal (s ++ (quote ∷ rest)))
unfolding read_literal
read_plain c [] rest h = rw h
read_plain c (b ∷ s) rest h = rw h

read_pair : (s : Text) → read_literal (quote ∷ quote ∷ s) ≡ add_char quote (read_literal s)
unfolding read_literal
read_pair s = refl

-- Whatever the name of a migration, quotes included, SQL reads the escaped name as that name and
-- goes on behind the closing quote, if no other quote follows it.
pub read_literal-escape :
    (name rest : Text)
    → NoQuote rest
    → read_literal (escape name ++ (quote ∷ rest)) ≡ some (name, rest)
unfolding escape
read_literal-escape [] rest h = read_end rest h
read_literal-escape (c ∷ name) rest h = elim (Bool-cases (c == quote)) [
  | inl e ↦
      let at : c ≡ quote = (nat_eq.beq_iff c quote).0 e in
      rw e (
        read_pair (escape name ++ (quote ∷ rest))
        ∙ ap (add_char quote) (read_literal-escape name rest h)
        ∙ ap (λ x. some (x ∷ name, rest)) (sym at))
  | inr e ↦
      rw e (read_plain c (escape name) rest e ∙ ap (add_char c) (read_literal-escape name rest h))
]
