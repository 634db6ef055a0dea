-- ===== src/Format.antt =====
-- scripts/tlie_format.py
pub mod Hex
pub mod Utf8
pub mod Pack
pub mod Numpy
pub mod Writer
pub mod Layout
pub mod Reader
pub mod RoundTrip
