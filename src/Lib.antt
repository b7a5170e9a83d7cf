-- ===== src/Lib.antt =====
-- shpx converts spatial data between file formats and databases. A driver reads batches whose
-- geometry column holds WKB, and another driver writes them; crates/shpx-geom holds the codecs that
-- the drivers share. This library models these codecs, and the parts of the core, of the database
-- helpers and of five drivers that decide names, types and encodings, and the conversion itself, as the
-- command line runs it over the interface of the drivers.
--
-- Files and sources:
--   Geom/Types.antt        the enum Geom of crates/shpx-geom/src/wkb.rs, and the errors
--   Geom/Bytes*.antt       to_le_bytes, from_le_bytes and the big-endian pair
--   Geom/Cursor*.antt      struct Cursor of wkb.rs: a method is a function that returns the new cursor
--   Geom/Wkb*.antt         wkb::encode in Wkb/Encode.antt, wkb::decode in Wkb/Decode.antt
--   Geom/Ewkb*.antt        crates/shpx-geom/src/ewkb.rs
--   Geom/GpkgBlob*.antt    crates/shpx-geom/src/gpkg_blob.rs
--   Geom/Walk*.antt        crates/shpx-geom/src/geom_walk.rs
--   Geom/Reproject*.antt   crates/shpx-geom/src/reproject.rs: the pass over a column; Moved.antt: its points,
--                          Kept.antt: its results
--   Geom/Float.antt        the comparisons of f64
--   Geom/SpatialiteBlob*.antt  crates/shpx-geom/src/spatialite_blob.rs
--   Geom/Wkt*.antt         crates/shpx-geom/src/wkt.rs: Wkt/Encode.antt, Wkt/Tokens.antt, Wkt/Decode.antt
--   Shp/Loss.antt          apply_on_loss of crates/shpx-driver-shp/src/util.rs
--   Shp/Names*.antt        pick_dbf_name of crates/shpx-driver-shp/src/dbf_schema.rs, and util.rs
--   Shp/Dbf*.antt          plan_dbf_writer_schema of dbf_schema.rs
--   Shp/Geometry*.antt    crates/shpx-driver-shp/src/geometry.rs
--   Csv/Options.antt       crates/shpx-driver-csv/src/options.rs, and the errors of the driver
--   Csv/Reader.antt        crates/shpx-driver-csv/src/reader.rs
--   Csv/Writer*.antt       crates/shpx-driver-csv/src/writer.rs: Writer/Table.antt and Writer/Rows.antt join it
--                          with the reader
--   Core/Uri*.antt         crates/shpx-core/src/uri.rs
--   Core/Crs.antt          crates/shpx-core/src/crs.rs
--   Core/Schema*.antt      crates/shpx-core/src/schema.rs
--   Cli/Driver.antt        driver.rs, capabilities.rs and opts.rs of crates/shpx-core/src
--   Cli/Registry*.antt     crates/shpx-cli/src/registry.rs
--   Cli/Convert*.antt      crates/shpx-cli/src/commands/convert.rs, parse_src_crs of mod.rs
--   Rdb/Uri*.antt          crates/shpx-rdb-common/src/uri.rs
--   Rdb/Table*.antt        table.rs, multirow.rs and opts.rs of crates/shpx-rdb-common/src
--   Rdb/Crs*.antt          crs.rs and opts.rs of crates/shpx-rdb-common/src
--   Rdb/Paging*.antt       crates/shpx-rdb-common/src/streaming.rs
--   Geojson/Stream*.antt   both iterators of crates/shpx-driver-geojson/src/stream.rs
--   Geojson/GeomConvert*.antt  crates/shpx-driver-geojson/src/geom_convert.rs
--   Postgis/Numeric*.antt  PgNumeric of crates/shpx-driver-postgis/src/copy_binary.rs; Numeric/Read.antt:
--                          to_i128_with_scale, Numeric/Wire.antt: from_sql
--   Postgis/Copy*.antt     the fields of copy_binary.rs; Copy/Row.antt: its rows, Copy/Row/Framed.antt: the
--                          format apart from the encoder
--   Prelude*.antt          lists, results, masks and tests that all parts use
-- A definition has the name of the function that it models; a function with a loop or a match that
-- is long has its parts as helpers, whose comments name the code.
--
-- Interaction: encode_with_srid and strip_srid change the header of bytes that wkb::encode wrote;
-- ewkb::decode and spatialite_blob::decode end in wkb::decode and wkb::encode; the GeoPackage blob
-- carries a WKB payload as it is; compute_mbr of the SpatiaLite blob is a walk; the geometry field of
-- a COPY row is what encode_with_srid makes of a WKB. The conversion selects two drivers in the
-- registry, replaces the CRS in the schema, and passes the reader's batches to the writer, one by one
-- or as an iterator whose closure transforms and counts them.
--
-- Representation: bytes are natural numbers below 256 (IsByte). An f64 and an i32 are their bit
-- patterns, since the codecs move them and only compute_mbr compares them; Geom/Float.antt compares
-- patterns as IEEE 754 orders the numbers. A u32 and a usize keep their bounds: a count is checked
-- against 2 ^ 32, and checked_add and checked_mul against 2 ^ 64. A Vec grows without a bound. An
-- error message is a constructor of Fault with the values that the text shows. Strings are their
-- UTF-8 bytes. The set of used names in the DBF plan is a list; log lines are left out. What the
-- standard library makes of a path's extension, of bytes that are no UTF-8 and of the text of an f64
-- are parameters, and so are the JSON of serde, the next feature that it reads, a SQLite statement, record batches
-- and the Reprojector as the conversion sees it.
-- A driver is a record of functions that read and change a store; the batches of a reader are a list
-- that is fixed when it is opened. The i64 of the row iterators are moved by 2 ^ 63.
--
-- Fuel: read_geom calls itself for the members of a collection. The model gives it one unit more
-- than the input has bytes, and a call reads at least five bytes before the next one; the result on
-- arbitrary bytes below includes that the fuel does not run out. The digits of a numeric are pushed in
-- at most ten rounds, since a u128 is below 10000 ^ 10; that the number comes out whole shows it.
--
-- A loop over a WKT list has one round more than bytes are left, and a round reads a byte or more; that
-- its fuel does not run out is part of the result on arbitrary texts.
--
-- Not modelled: the rest of the drivers, which are calls of arrow, database and file libraries around
-- these parts; the transformation of a point and of CRS texts, which is the proj library's;
-- the commands that only print; progress bars and log lines.
pub mod Cli
pub mod Core
pub mod Csv
pub mod Geojson
pub mod Geom
pub mod Postgis
pub mod Prelude
pub mod Rdb
pub mod Shp
