-- ===== src/Cam.antt =====
-- gst/gst-dvb/cam*.c: the EN 50221 stack that talks to a conditional access module.
pub mod LengthField
pub mod CaPmt
pub mod State
pub mod Monad
pub mod Transport
pub mod Receive
pub mod SwClient
pub mod Slots
pub mod Reading
pub mod PmtReply
pub mod Session
pub mod Spdu
pub mod Application
pub mod Apps
pub mod Apdu
pub mod Device
pub mod Frames
pub mod Wire
pub mod Messages
pub mod Effects
pub mod Sends
pub mod SessionTable
pub mod Numbering
pub mod Stack
pub mod Dangling
