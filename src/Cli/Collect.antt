-- ===== src/Cli/Collect.antt =====
-- `vignemale_cli/collect.py`
pub mod Syntax
pub mod Extract
pub mod Paths
pub mod Meta
