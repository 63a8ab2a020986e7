-- ===== src/Api.antt =====
-- api/: the HTTP handlers of stateful migrations.
pub mod Rows
pub mod Stateful
mod Tests
mod Runs
