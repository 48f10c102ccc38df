-- ===== src/Migrations.antt =====
-- The two migration runners: the router's database and the host. Both number their migrations from 2
-- without a gap.
pub mod Versions
pub mod Database
pub mod System
