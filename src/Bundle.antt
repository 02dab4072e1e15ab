-- ===== src/Bundle.antt =====
-- src/bundle/bundle_service.py: the zip of one order's files.
pub mod Paths
pub mod Names
pub mod Files
mod Examples
