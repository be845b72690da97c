-- ===== src/Datamodel.antt =====
-- `vignemale/datamodel.py`: tables and queries.
pub mod Columns
pub mod Query
pub mod Table
