-- ===== src/Host.antt =====
-- The Host, as far as the client depends on it: the routes of crates/host/src.
pub mod Routes
