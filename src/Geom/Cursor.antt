-- ===== src/Geom/Cursor.antt =====
-- The cursor of wkb.rs and spatialite_blob.rs: reads with bounds checks over a byte slice.
mod Defs
pub mod Reads
pub mod Spends
unfoldable pub use Defs.{
  remaining, ensure_remaining_for, take_bytes, take_byte, read_u32, read_f64, read_coord,
}
pub use Defs.{Cursor, Reader, and_then, pure, fail, ◌>>=◌, ◌>>◌}
