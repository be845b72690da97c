-- ===== src/Api.antt =====
-- `vignemale/api.py`
pub mod Errors
pub mod Registry
pub mod Handler
pub mod Serving
pub mod Gateway
