-- ===== src/Runner.antt =====
-- internal/runner: retries and their delay (node.go), and the run of a job graph (node.go, runner.go).
pub mod Delay
pub mod Attempts
pub mod Graph
pub mod Dag
pub mod Redact
pub mod Publishes
mod Tests
