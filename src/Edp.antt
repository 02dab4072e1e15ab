-- ===== src/Edp.antt =====
-- edp_client/: what the engineering service sends back, and the client that waits for it.
pub mod Artifacts
pub mod Client
mod Examples
