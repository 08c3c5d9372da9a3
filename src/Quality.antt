-- ===== src/Quality.antt =====
-- Quality control (quality_control.rs): certifications, sensors, readings and their statistics.
pub mod State
pub mod Handlers
pub mod Queries
pub mod Requests
pub mod Summary
pub mod Statistics
pub mod Takeover
pub mod Thresholds
mod Tests
