-- ===== src/Provisioner.antt =====
-- pwa/services/provisioner.py: issuing a device and taking one off its node.
mod Examples
pub mod Pool
pub mod Issue
pub mod Activate
pub mod ClientFile
pub mod Removal
