-- ===== src/Prelude/Text.antt =====
-- Python's `str` as the list of its code points, and the methods of `str` that the program calls.
-- Case mapping and the character classes are those of ASCII.
pub mod Split
use Prim.Native.Char.{code}
use Prim.Native.Nat.{ℕ, zero, suc, ◌+◌, ◌-◌, ◌/◌, ◌%◌}
use Prim.Native.String.{String}
use mathlib.Core.Bool.{Bool, true, false, ◌&&◌, ◌||◌}
use mathlib.Core.List.{List, [], ◌∷◌, ◌++◌, map, reverse}
use vignemale.Prelude.Tests.{Eq, nat_eq, list_beq, list_beq_iff, ◌==◌, ltb, leb, if◌then◌else◌}
use vignemale.Prelude.Lists.{all}

abbrev pub Text : Type 0
Text = List ℕ

abbrev pub codes : String → Text
codes String.[] = []
codes (String.◌∷◌ c s) = code c ∷ codes s

instance abbrev pub text_eq : Eq Text
text_eq = record { same = list_beq; beq_iff = list_beq_iff }

abbrev pub is_lower : ℕ → Bool
is_lower c = leb b'a' c && leb c b'z'

abbrev pub is_upper : ℕ → Bool
is_upper c = leb b'A' c && leb c b'Z'

abbrev pub is_digit : ℕ → Bool
is_digit c = leb b'0' c && leb c b'9'

abbrev pub is_alnum : ℕ → Bool
is_alnum c = is_lower c || is_upper c || is_digit c

-- Space, \t \n \v \f \r and the separators 28 to 31.
abbrev pub is_space : ℕ → Bool
is_space c = (c == 32) || (leb 9 c && leb c 13) || (leb 28 c && leb c 31)

unfoldable pub to_upper : ℕ → ℕ
to_upper c = if is_lower c then c - 32 else c

unfoldable pub to_lower : ℕ → ℕ
to_lower c = if is_upper c then c + 32 else c

-- s.upper(), s.lower()
unfoldable pub upper : Text → Text
unfolding to_upper
upper s = map to_upper s

unfoldable pub lower : Text → Text
unfolding to_lower
lower s = map to_lower s

-- s.replace(a, b) for single characters
unfoldable pub replace_char : ℕ → ℕ → Text → Text
replace_char a b s = map (λ c. if c == a then b else c) s

-- s.isdigit()
unfoldable pub all_digits : Text → Bool
all_digits [] = false
all_digits (c ∷ s) = is_digit c && all is_digit s

-- s.startswith(p)
unfoldable pub starts_with : Text → Text → Bool
starts_with s [] = true
starts_with [] (_ ∷ _) = false
starts_with (c ∷ s) (d ∷ p) = (c == d) && starts_with s p

unfoldable pub ends_with : Text → Text → Bool
unfolding starts_with
ends_with s p = starts_with (reverse s) (reverse p)

-- s.lstrip(), over the characters that satisfy a test
unfoldable pub drop_while : (ℕ → Bool) → Text → Text
drop_while p [] = []
drop_while p (c ∷ s) = if p c then drop_while p s else c ∷ s

unfoldable pub strip_right : (ℕ → Bool) → Text → Text
unfolding drop_while
strip_right p s = reverse (drop_while p (reverse s))

unfoldable pub strip_both : (ℕ → Bool) → Text → Text
unfolding strip_right
strip_both p s = strip_right p (drop_while p s)

abbrev push : ℕ → List Text → List Text
push c [] = (c ∷ []) ∷ []
push c (w ∷ ws) = (c ∷ w) ∷ ws

-- s.split(d) for a single character: never empty
unfoldable pub split : ℕ → Text → List Text
split d [] = [] ∷ []
split d (c ∷ s) = let rest = split d s in if c == d then [] ∷ rest else push c rest

-- d.join(ws)
unfoldable pub join : Text → List Text → Text
join d [] = []
join d (w ∷ []) = w
join d (w ∷ v ∷ ws) = w ++ (d ++ join d (v ∷ ws))

-- `str(n)`, on fuel: a number has at most as many digits as its value, and one.
abbrev pub print_digits : ℕ → ℕ → Text → Text
print_digits zero n acc = acc
print_digits (suc f) n acc =
    let rest = print_digits f (n / 10) ((48 + n % 10) ∷ acc) in
    if ltb n 10 then (48 + n) ∷ acc else rest

unfoldable pub print_nat : ℕ → Text
print_nat n = print_digits (suc n) n []

-- s.rpartition(d) for a single character, without the middle: what is before the last `d` and what
-- is after it, or an empty text and `s`.
abbrev rpartition_from : ℕ → Text → Text → Text × Text
rpartition_from d [] after = ([], after)
rpartition_from d (c ∷ s) after =
    let rest = rpartition_from d s (c ∷ after) in if c == d then (reverse s, after) else rest

unfoldable pub rpartition : ℕ → Text → Text × Text
rpartition d s = rpartition_from d (reverse s) []

-- `t in s`
unfoldable pub occurs : Text → Text → Bool
unfolding starts_with
occurs t [] = starts_with [] t
occurs t (c ∷ s) = starts_with (c ∷ s) t || occurs t s
