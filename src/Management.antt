-- ===== src/Management.antt =====
-- management/: the dashboard's own API.
pub mod Auth
pub mod Accounts
pub mod SingleSignOn
pub mod Hosts
