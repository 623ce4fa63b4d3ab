-- ===== src/Parser/Includes.antt =====
-- pkg/parser/include.go: fragments and includes.
pub mod Directives
pub mod State
pub mod Files
pub mod Balance
pub mod Stack
pub mod Depth
