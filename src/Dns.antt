-- ===== src/Dns.antt =====
-- src/dns/: the DNS API client and a site's name in the zone.
pub mod Client
mod Examples
