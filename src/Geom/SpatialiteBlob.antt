-- ===== src/Geom/SpatialiteBlob.antt =====
-- crates/shpx-geom/src/spatialite_blob.rs: the geometry blobs of SpatiaLite.
pub mod Encode
pub mod Decode
pub mod Extreme
pub mod Mbr
pub mod Format
pub mod Size
pub mod RoundTrip
mod Runs
