-- ===== src/Runtime.antt =====
-- `vignemale/__main__.py`: the entry point of a container.
pub mod Loading
pub mod Workers
pub mod Start
