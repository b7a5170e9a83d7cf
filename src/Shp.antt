-- ===== src/Shp.antt =====
-- crates/shpx-driver-shp: the part of the Shapefile driver that decides how columns become DBF
-- fields.
pub mod Loss
pub mod Names
pub mod Dbf
pub mod Geometry
