-- ===== src/Ts.antt =====
-- gst/gst-demux/mpegtspacketizer.c: packets of a transport stream.
pub mod Packet
pub mod Window
pub mod Section
pub mod Groups
pub mod Clock
pub mod Timing
pub mod Programs
