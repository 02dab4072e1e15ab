-- ===== src/Orchestrator.antt =====
-- src/orchestrator/orchestrator_service.py: one order, from submission to its delivery.
pub mod Effects
pub mod Services
pub mod Delivery
pub mod Publish
pub mod Run
mod Examples
