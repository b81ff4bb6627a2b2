-- ===== src/Tests.antt =====
-- Concrete inputs: a platform in which every outside function is a small table, and what the
-- theorems say there.
mod Sample
mod Requests
mod Witnesses
mod Services
mod Login
mod Upstream
mod Deploy
mod Audit
mod Devices
mod Passwords
