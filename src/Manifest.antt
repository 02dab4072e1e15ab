-- ===== src/Manifest.antt =====
-- manifest/: the delivery manifest that the portal page, manifest.json and the zip are made from.
pub mod Records
pub mod Summary
pub mod Build
mod Examples
