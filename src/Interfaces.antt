-- ===== src/Interfaces.antt =====
-- Network interfaces, src/confd/src/confd/ietf-interfaces.c: the children follow the file's order.
pub mod Infer
pub mod Addresses
pub mod Autoconf
pub mod Links
pub mod Iface
pub mod Change
