-- ===== src/Lib.antt =====
-- Verification of Helia, GStreamer plugins for digital television: the stack for conditional access
-- modules (CAM) of gst/gst-dvb, and the packetizer, the demultiplexer and the parser element of
-- gst/gst-demux.
--
-- The CAM stack has three layers over one descriptor. The transport layer keeps connections and
-- exchanges TPDUs; its read loop hands each body to the session layer, which keeps sessions and
-- exchanges SPDUs; the session layer asks the application layer by callbacks, and that hands APDUs
-- to the resource manager, the application information and the conditional access.
--
-- Common: operators, lists, bytes and their lemmas; Common.Maybe: binding of options.
-- Cam.LengthField, Cam.CaPmt: gst/gst-dvb/camutils.c. `none` is an access outside an array.
-- Cam.CaPmt.Descriptors, Cam.CaPmt.Decode: readers of the CA descriptors and of the ca_pmt.
-- Cam.State: the records of camtransport.h, camsession.h and camapplication.h as one state `Cam`.
-- A pointer to a connection or a session is its number, by which its table keeps it. The
-- operating system is a parameter that may answer anything by what went before.
-- Cam.Monad: steps over that state, which end, fault (an access outside an array or through a
-- dangling pointer) or run out of fuel.
-- Cam.Transport, Cam.Receive: camtransport.c, sending and receiving.
-- Cam.Session, Cam.Spdu: camsession.c, sending and the handlers, over callbacks.
-- Cam.Application, Cam.Apdu: camapplication.c, the table, APDUs and the callbacks.
-- Cam.Apps: camresourcemanager.c, camapplicationinfo.c and camconditionalaccess.c.
-- Cam.Device: camdevice.c.
-- Cam.SwClient: camswclient.c, the client of a software CAM, which sends the same ca_pmt.
-- Cam.Effects, Cam.Sends, Cam.Frames: what a step may change, and the bytes that it writes; Cam.Wire:
-- readers of the three layouts of EN 50221, which do not use the code's functions.
-- Cam.Slots, Cam.Reading, Cam.PmtReply, Cam.Messages, Cam.SessionTable, Cam.Numbering,
-- Cam.Stack, Cam.Dangling: the theorems.
-- Parsing: bytes read from a memory, and the outcomes of the parsers; Parsing.Meets: rules for what
-- a parser promises.
-- Parsing.Gives: the same for steps that always give a result; Parsing.Results: for results, if any.
-- Pes: gst/gst-demux/pesparse.c, mpegts_parse_pes_header in stages, and READ_TS of gstmpegdefs.h.
-- Ts.Packet: gst/gst-demux/mpegtspacketizer.c, parsing one packet, with what logging reads; the demultiplexer calls the
-- packetizer for each packet and the PES parser for the payloads of elementary streams.
-- Ts.Window: of the same file, the bytes that are mapped from GStreamer's adapter, an interface by
-- its documentation, and the search for a packet size and for sync bytes in them; Ts.Window.Next:
-- taking packets off. Its other modules hold what is true of the window before and after each step.
-- Ts.Section: of the same file, the streams of sections and the subtables that were seen;
-- Ts.Section.Push: mpegts_packetizer_push_section, one function per label. libgstmpegts makes a
-- section of its bytes, and is a parameter. Its other modules hold the theorems.
-- Ts.Groups: of the same file, the groups of PCR observations by byte offset, with the window of the last
-- ones; Ts.Groups.Recording: record_pcr; Ts.Groups.Estimate: the stream times of groups that do not
-- follow one another. A pointer to a group is its number; rates come from GStreamer's scaling, and the
-- comparison of floats is a parameter. Ts.Groups.Sound, Ts.Groups.Safe, Ts.Groups.Recorded,
-- Ts.Groups.Continuity: the theorems.
-- Ts.Clock: of the same file, the window of drifts between sender and arrival; Ts.Clock.Skew:
-- calculate_skew, over the scaling of GStreamer; Ts.Clock.Table: the entries by PID. Ts.Clock.Least,
-- Ts.Clock.Sliding, Ts.Clock.Offsets: the theorems.
-- Ts.Timing: of the same file, the entries with their groups as a packet's PCR, a flush or a new start
-- changes them, and the offset_to_ts of a byte offset; Ts.Timing.Offsets: ts_to_offset;
-- Ts.Timing.Times: pts_to_ts; Ts.Timing.Within: the theorem.
-- Ts.Timing.Sound, Ts.Timing.Handled: the theorems on sound entries.
-- Demux: gst/gst-demux/tsdemux.c, the streams of the program that is played, which take their times
-- from the packetizer behind an interface; Demux.Clock: the packetizer's times fill it. Demux.Pending:
-- recording timestamps, and giving pending buffers times; Demux.Queue: collecting the payloads of
-- packets. Demux.Sound, Demux.Collecting, Demux.Queued, Demux.Unit: the theorems.
-- Ts.Programs: gst/gst-demux/mpegtsbase.c, the programs of a PAT with their streams; sub-classes get
-- events and may refuse to give a program up. Ts.Programs.Update: applying a PMT. Its other modules
-- hold the theorems. The tables come from libgstmpegts; collections of GStreamer are left out.
-- TsParse: gst/gst-demux/mpegtsparse.c, the parser element, whose pads are an interface;
-- TsParse.Draining: the buffers that wait for a PCR. TsParse.InOrder, TsParse.Paced: the theorems.
-- Tests: the theorems at concrete inputs.
--
-- The read loop runs as long as the module answers, so Cam.Receive takes fuel for its inner and
-- its outer loop, and a run without fuel is `stuck`; the theorems on it say what holds if it ends.
-- The search for the next packet takes fuel for its rounds, of which two are enough, and the loop over
-- the sections of a packet takes one round per byte. The size of a stream's memory doubles in 33
-- rounds at most, after which a guint is 0 and stays so, which is a `fault`. All other loops are
-- structural. Integers keep the wrap-around of guint, guint16 and guint8 where the code may reach it.
--
-- Not modelled: what logging prints, the memory that is freed with an object, and the rest of the
-- repository. Of the demultiplexer that is what follows a collected buffer: parsing Opus and
-- JPEG 2000, searching for keyframes, segments, gaps and pads, and the build with descrambling; of the
-- parser element, the pads for single programs. The cipher of gst/csasys is a copy of libdvbcsa, and
-- the elements around these parts call GStreamer.
pub mod Common
pub mod Cam
pub mod Parsing
pub mod Pes
pub mod Ts
pub mod Demux
pub mod TsParse
pub mod Tests
