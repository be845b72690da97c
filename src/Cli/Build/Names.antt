-- ===== src/Cli/Build/Names.antt =====
-- The default tag of an image.
use vignemale.Cli.Build.{image_char, image_name}
use vignemale.Prelude.{
  All, Bool, [], ap, arith, length, nat_eq, opt_eq, pair_eq, refl, suc, true, ℕ, ◌==◌, ◌||◌, ◌∷◌,
  ◌≡◌,
}
use vignemale.Prelude.Text.{Text, is_digit, is_lower, lower, text_eq, to_lower}

-- A character of a default image name.
abbrev pub is_image_char : ℕ → Bool
is_image_char c = is_lower c || is_digit c || (c == b'-') || (c == b'_')

image_char-lower : (c : ℕ) → is_image_char (image_char (to_lower c)) ≡ true
unfolding image_char to_lower
image_char-lower c = ground arith

-- The name in the default tag has only lower case letters, digits, dashes and underscores, and as
-- many characters as the name of the app.
pub image_name-plain :
    (name : Text)
    → All (λ c. is_image_char c ≡ true) (image_name name) × (length (image_name name) ≡ length name)
unfolding image_name lower
image_name-plain [] = (tt, refl)
image_name-plain (c ∷ name) =
    let rest = image_name-plain name in ((image_char-lower c, rest.0), ap (λ n. suc n) rest.1)
