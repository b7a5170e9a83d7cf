-- ===== src/Core.antt =====
-- crates/shpx-core: what the drivers and the command line share.
pub mod Uri
pub mod Crs
pub mod Schema
