-- ===== src/Geom/Wkt.antt =====
-- crates/shpx-geom/src/wkt.rs: geometries as WKT texts, which are their UTF-8 bytes.
-- `show` stands for what `Display` of an f64 writes, `parse` for `str::parse::<f64>`.
pub mod Encode
pub mod Tokens
pub mod Decode
pub mod Parses
pub mod Numbers
pub mod Layout
pub mod Lists
pub mod RoundTrip
pub mod Ends
pub mod Accepts
pub mod Runs
