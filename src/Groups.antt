-- ===== src/Groups.antt =====
-- groups/
pub mod Rollup
