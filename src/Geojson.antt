-- ===== src/Geojson.antt =====
-- crates/shpx-driver-geojson.
pub mod Stream
pub mod GeomConvert
