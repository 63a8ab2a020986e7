-- ===== src/Template.antt =====
-- template/: Domain Connect templates, from their records to the zone.
pub mod Types
pub mod Substitute
pub mod Names
pub mod Keys
pub mod Spfm
pub mod Resolve
pub mod Apply
pub mod Step
pub mod Conflicts
pub mod Entries
pub mod Signature
pub mod Process
mod Tests
