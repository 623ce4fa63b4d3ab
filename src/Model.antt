-- ===== src/Model.antt =====
-- pkg/pipeline/pipelinemodel: the types that the packages share, and small values to test with.
mod Errors
mod Types
pub mod Samples
pub use Errors.*
pub use Types.*
