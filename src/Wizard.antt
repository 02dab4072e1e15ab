-- ===== src/Wizard.antt =====
-- src/wizard/: the pages that set up an on-premises box.
pub mod Steps
pub mod Lines
pub mod Secrets
pub mod Lockdown
pub mod Inputs
pub mod Machine
pub mod Waiting
pub mod Pages
mod Examples
