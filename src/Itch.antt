-- ===== src/Itch.antt =====
-- include/itch/ and the framing of include/io/gzip_source.hpp: the ITCH 5.0 wire format.
pub mod Wire
pub mod Messages
pub mod Dispatch
pub mod Encode
pub mod Stream
mod Tests
