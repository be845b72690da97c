-- ===== src/Cli/Files.antt =====
-- The file system, as `vignemale_cli/init.py`, `vignemale_cli/link.py` and `vignemale_cli/auth.py` use
-- it. The operations may raise.
use vignemale.Prelude.{Bool, Option, nat_eq, opt_eq, pair_eq, some, true, ◌≡◌}
use vignemale.Prelude.Text.{Text, text_eq}
use vignemale.Python.{Result}

pub record Files : Type 1 where
  pub State : Type 0
  pub abspath : Text → Text
  pub exists : Text → State → Bool
  pub is_file : Text → State → Bool
  pub make_dirs : Text → State → Result (Unit {0}) × State
  -- the text of a file; `none` if it is not there
  pub content : Text → State → Option Text
  pub write : Text → Text → State → Result (Unit {0}) × State

-- A file that has a text exists, and making a directory changes no text.
pub record Frames (F : Files) : Type 0 where
  pub present : (p text : Text) (s : F.State) → F.content p s ≡ some text → F.exists p s ≡ true
  pub make_dirs_same : (p q : Text) (s : F.State) → F.content p (F.make_dirs q s).1 ≡ F.content p s
