-- ===== src/Classroom.antt =====
-- The student's classrooms: apps/forge/src/classrooms and the offline store of packages/ui/src/cache.ts.
pub mod Scope
pub mod Outbox
pub mod Live
pub mod Quiz
mod Tests
