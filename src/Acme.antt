-- ===== src/Acme.antt =====
-- The ACME server, acme/*.py.
pub mod Errors
pub mod Encoding
pub mod Nonce
pub mod Jws
pub mod Common
pub mod Profiles
pub mod Serializers
pub mod Accounts
pub mod Authz
pub mod Orders
pub mod Certificates
pub mod Directory
pub mod Server
