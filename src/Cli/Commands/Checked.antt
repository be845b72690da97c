-- ===== src/Cli/Commands/Checked.antt =====
-- When `vignemale check --sql` succeeds.
use vignemale.Prelude.{opt_eq, pair_eq}
use vignemale.Prelude.Text.{Text, text_eq}
