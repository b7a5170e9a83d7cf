-- ===== src/Rdb.antt =====
-- crates/shpx-rdb-common: what the database drivers share. Strings are their UTF-8 bytes.
pub mod Uri
pub mod Table
pub mod Crs
pub mod Paging
