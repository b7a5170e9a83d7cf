-- ===== src/Geom/Bytes.antt =====
-- The byte orders of numbers, and that reading inverts writing.
mod Defs
mod Laws
unfoldable pub use Defs.{
  to_le_bytes, from_le_bytes, to_be_bytes, from_be_bytes, to_bytes, from_bytes,
}
pub use Defs.{IsByte}
pub use Laws.*
