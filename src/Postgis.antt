-- ===== src/Postgis.antt =====
-- crates/shpx-driver-postgis: the binary values that COPY takes.
pub mod Numeric
pub mod Copy
