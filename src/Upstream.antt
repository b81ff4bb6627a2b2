-- ===== src/Upstream.antt =====
-- upstream/: fulfilling an order at the upstream CA. The ACME client library and the DNS provider
-- are an interface: what each of their calls answers may depend on how many calls went before.
pub mod Client
pub mod Edge
pub mod Fulfil
