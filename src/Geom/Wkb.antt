-- ===== src/Geom/Wkb.antt =====
-- crates/shpx-geom/src/wkb.rs: WKB, written little-endian and read in either byte order.
pub mod Encode
pub mod Decode
pub mod Layout
pub mod RoundTrip
pub mod Sound
pub mod Accepts
pub mod Canonical
mod Runs
