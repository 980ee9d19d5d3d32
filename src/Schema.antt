-- ===== src/Schema.antt =====
-- packages/schema/src: what the services share.
pub mod Scan
pub mod Sealed
pub mod Reseal
pub mod Keyring
