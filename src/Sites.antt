-- ===== src/Sites.antt =====
-- A cloud site's name: the slug of its display name, its DNS name and token, and the callback by
-- which its box reports an address.
pub mod Slug
pub mod Identity
pub mod Address
mod Examples
