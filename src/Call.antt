-- ===== src/Call.antt =====
-- `vignemale/call.py`: calls from service to service.
pub mod Local
pub mod Sign
pub mod Trace
pub mod Clients
pub mod Http
