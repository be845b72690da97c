-- ===== src/Python/Path.antt =====
-- The functions of `os.path` on texts.
use vignemale.Api.Gateway.{before}
use vignemale.Gdpr.{after}
use vignemale.Prelude.{all, if◌then◌else◌, is_empty, nat_eq, opt_eq, pair_eq, ◌++◌, ◌==◌, ◌||◌, ◌∷◌}
use vignemale.Prelude.Text.{Text, codes, ends_with, rpartition, starts_with, text_eq}

-- os.path.join(a, b)
unfoldable pub join_path : Text → Text → Text
unfolding starts_with ends_with
join_path a b =
    if starts_with b (codes "/")
    then b
    else if is_empty a || ends_with a (codes "/")
    then a ++ b
    else a ++ (b'/' ∷ b)

-- os.path.basename(p)
unfoldable pub basename : Text → Text
unfolding rpartition
basename p = (rpartition b'/' p).1

-- os.path.splitext(b)[0] of a text without a slash; dots that lead belong to the root.
unfoldable pub stem : Text → Text
unfolding rpartition
stem b =
    let (before, after) = rpartition b'.' b in if all (λ c. c == b'.') before then b else before
