-- ===== src/Builder.antt =====
-- internal/builder: the BuildKit definitions of a pipeline.
pub mod Llb
pub mod Quote
pub mod Words
pub mod Steps
pub mod Jobs
pub mod Build
pub mod Orders
pub mod Complete
pub mod Added
pub mod Ordered
pub mod Parsed
mod Tests
