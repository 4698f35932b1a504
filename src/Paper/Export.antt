-- ===== src/Paper/Export.antt =====
-- The PDF of a paper: apps/teacher/src/paperExport.ts.
pub mod Wrap
pub mod Wrapped
pub mod Layout
pub mod Question
pub mod Figures
pub mod Budget
pub mod Together
pub mod Kept
pub mod Document
mod Tests
