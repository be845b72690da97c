-- ===== src/Sqldb.antt =====
-- `vignemale/sqldb.py`
pub mod Migrate
pub mod Transaction
