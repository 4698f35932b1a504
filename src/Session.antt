-- ===== src/Session.antt =====
-- Sign-in sessions: where they are stored, and the gate that holds the one in use.
pub mod Storage
pub mod Gate
pub mod Teacher
