-- ===== src/Tests/Link.antt =====
-- `vignemale_cli/link.py` on small files.
use vignemale.Cli.Link.{
  apply_lines, apply_link, dashed, is_other_break, lines, newline_lines, opens_section, opens_table,
  replace_app, set_app, sets_app, slug, unify_breaks,
}
use vignemale.Cli.Link.Linked.{apply_link-twice}
use vignemale.Cli.Link.Slug.{is_slug_char, slug-bounds}
use vignemale.Prelude.{All, length, list_beq, refl, true, ◌++◌, ◌∷◌, ◌≡◌, ◌≤◌}
use vignemale.Prelude.Text.{
  codes, drop_while, ends_with, join, lower, split, starts_with, strip_both, strip_right, to_lower,
}

slug_text : slug (codes " My  Shop! ") ≡ codes "my-shop"
unfolding slug dashed lower to_lower strip_both strip_right drop_while
slug_text = refl

new_section :
    apply_link (codes "a = 1") (codes "shop") ≡ codes "a = 1\n\n[tool.vignemale]\napp = \"shop\"\n"
unfolding apply_link apply_lines lines newline_lines unify_breaks is_other_break set_app
    opens_section strip_both strip_right drop_while ends_with starts_with split join list_beq
new_section = refl

old_section :
    apply_link (codes "[tool.vignemale]\nx = 1\n app = 2\n[b]\n") (codes "shop")
    ≡ codes "[tool.vignemale]\nx = 1\napp = \"shop\"\n[b]\n"
unfolding apply_link apply_lines lines newline_lines unify_breaks is_other_break set_app replace_app
    opens_table sets_app opens_section strip_both strip_right drop_while ends_with starts_with split
    join list_beq
old_section = refl

-- A form feed ends a line for `splitlines`, and is lost.
form_feed :
    apply_link (codes "[tool.vignemale]" ++ (12 ∷ codes "b")) (codes "s")
    ≡ codes "[tool.vignemale]\napp = \"s\"\nb"
unfolding apply_link apply_lines lines newline_lines unify_breaks is_other_break set_app replace_app
    opens_table sets_app opens_section strip_both strip_right drop_while ends_with starts_with split
    join list_beq
form_feed = refl

slug-bounds_example :
    (length (slug (codes " My  Shop! ")) ≤ 48)
    × All (λ c. is_slug_char c ≡ true) (slug (codes " My  Shop! "))
slug-bounds_example = slug-bounds (codes " My  Shop! ")

apply_link-twice_example :
    apply_link (apply_link (codes "a = 1\n") (slug (codes "My Shop"))) (slug (codes "My Shop"))
    ≡ apply_link (codes "a = 1\n") (slug (codes "My Shop"))
unfolding is_other_break
apply_link-twice_example =
    apply_link-twice (codes "My Shop") (codes "a = 1\n")
      (refl, (refl, (refl, (refl, (refl, (refl, tt))))))
