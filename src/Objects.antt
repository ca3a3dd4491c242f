-- ===== src/Objects.antt =====
-- The kinds of objects of the daemon, each with its registry: mbbd/mbbgroup.c, mbbuser.c,
-- mbbconsumer.c, mbboperator.c, mbbgwlink.c, mbbgateway.c.
pub mod Group
pub mod User
pub mod Consumer
pub mod Operator
pub mod GwLinks
pub mod Gateways
pub mod Removal
pub mod Masks
mod Tests
