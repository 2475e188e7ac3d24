-- ===== src/Config.antt =====
-- client/src/config/profiles.ts: lanes, transport profiles, and the table of the four profiles.
pub mod Lanes
pub mod Profile
pub mod Table
