-- ===== src/Parser.antt =====
-- pkg/parser: a KDL document is turned into a validated pipeline.
pub mod Outside
pub mod Helpers
pub mod Elements
pub mod Jobs
pub mod Includes
pub mod Pipeline
pub mod Tests
