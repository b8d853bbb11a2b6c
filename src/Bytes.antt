-- ===== src/Bytes.antt =====
-- encoding/binary's BigEndian, as the packages keys, fees and window use it, on byte slices.
mod Slices
mod Laws
unfoldable pub use Laws.*
