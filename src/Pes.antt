-- ===== src/Pes.antt =====
-- gst/gst-demux/pesparse.c: the parser of PES headers, and what it promises.
pub mod Header
pub mod Parse
pub mod Extension
pub mod Bounds
pub mod Timestamp
