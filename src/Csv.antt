-- ===== src/Csv.antt =====
-- crates/shpx-driver-csv: tables as lines of text, of which one column is a geometry as WKT.
pub mod Options
pub mod Reader
pub mod Writer
