-- ===== src/Security.antt =====
-- internal/security: the encryption of data at rest.
pub mod Encryption
pub mod Acl
