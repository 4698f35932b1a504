-- ===== src/Api.antt =====
-- The client of the Host: packages/ui/src/api.ts, health.ts and hostTransport.ts.
pub mod Request
pub mod Account
pub mod Classrooms
pub mod Work
pub mod Content
pub mod Calls
pub mod Transport
pub mod Routing
pub mod Answers
mod Tests
