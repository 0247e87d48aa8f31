-- ===== src/System.antt =====
-- The system configuration of ietf-system (src/confd/src/confd/ietf-system.c): one child for each
-- part of the file.
pub mod Staged
pub mod Clock
pub mod Ntp
pub mod Dns
pub mod Changes
pub mod Users
pub mod Auth
pub mod Hostname
pub mod Datetime
pub mod OsRelease
