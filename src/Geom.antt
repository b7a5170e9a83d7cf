-- ===== src/Geom.antt =====
-- crates/shpx-geom: the geometry type and its binary codecs.
pub mod Types
pub mod Bytes
pub mod Cursor
pub mod Wkb
pub mod Ewkb
pub mod GpkgBlob
pub mod Walk
pub mod Float
pub mod SpatialiteBlob
pub mod Wkt
pub mod Reproject
