-- ===== src/Scenario.antt =====
-- pkg/scenario: when requests are sent, and by how many workers.
pub mod Open
pub mod Closed
