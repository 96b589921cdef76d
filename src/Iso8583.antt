-- ===== src/Iso8583.antt =====
-- libs/mfcommon/mfcommon/iso8583/parser.py: the binary format of the switch. A byte is a number,
-- and a text is the list of its code points, which Latin-1 has as bytes.
pub mod Bcd
pub mod Catalog
pub mod Fields
pub mod Bitmap
pub mod Message
mod Bits
pub mod BitmapRead
pub mod BitmapRoundtrip
pub mod BcdRoundtrip
pub mod FieldRoundtrip
pub mod MessageRoundtrip
pub mod Files
pub mod FilesRoundtrip
pub mod FilesEnd
mod Tests
mod FileTests
