-- ===== src/Cli.antt =====
-- `vignemale_cli/`
pub mod Auth
pub mod Build
pub mod Collect
pub mod Commands
pub mod Deploy
pub mod Devinfra
pub mod Files
pub mod Gateway
pub mod Gen
pub mod Init
pub mod Link
pub mod Poll
