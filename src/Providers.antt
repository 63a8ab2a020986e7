-- ===== src/Providers.antt =====
-- The back ends over the clients of the services.
pub mod Replace
pub mod Priority
pub mod Cloudflare
pub mod Route53
pub mod Godaddy
pub mod Namecheap
pub mod Unread
mod Tests
