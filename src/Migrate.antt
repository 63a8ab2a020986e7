-- ===== src/Migrate.antt =====
-- migrate/: the store of stateful migrations.
pub mod Store
pub mod Convert
pub mod Scrape
pub mod Target
pub mod Run
pub mod Crypt
mod Tests
