-- ===== src/Acme/Orders.antt =====
-- acme/orders.py: the life of an order.
pub mod Status
pub mod Create
pub mod Finalize
pub mod Derivation
pub mod Issuance
pub mod Authority
