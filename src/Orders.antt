-- ===== src/Orders.antt =====
-- orders/: order intake: the rate limit, the stored orders and the endpoints.
pub mod RateLimit
pub mod Records
pub mod Service
mod Examples
