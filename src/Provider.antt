-- ===== src/Provider.antt =====
-- internal/provider: the failover between providers.
pub mod Failover
mod Examples
