-- ===== src/Cam/CaPmt.antt =====
-- gst/gst-dvb/camutils.c: the ca_pmt that is sent to the module.
-- GstMpegtsPMT, its section and its descriptors come from GStreamer's mpegts library: the records
-- below hold the fields that the code reads. `none` stands for a read outside an array: memcpy past
-- the end of `data`, or `lengths->data` on an empty list. The bytes are stored one after the other
-- from the start of the buffer, so the model lists them in that order; that they fill the buffer of
-- `body_size` bytes exactly is a theorem. The guint sums add guint8 values and do not reach 2^32.
pub mod Descriptors
pub mod Decode
use helia.Common.{
  ℕ, suc, ◌+◌, ◌*◌, ◌/◌, ◌%◌, Option, none, some, List, [], ◌∷◌, ◌++◌, map, ltb, leb, ◌==◌,
  if◌then◌else◌, length, take, be16,
}
use helia.Common.Maybe.{◌>>=◌}

-- `bytes` are `data`, which starts with the tag and the length.
pub record Descriptor : Type 0 where
  pub tag : ℕ
  pub length : ℕ
  pub bytes : List ℕ

pub record PmtStream : Type 0 where
  pub stream_type : ℕ
  pub pid : ℕ
  pub descriptors : List Descriptor

pub record Pmt : Type 0 where
  pub subtable_extension : ℕ
  pub version_number : ℕ
  pub descriptors : List Descriptor
  pub streams : List PmtStream

unfoldable pub get_ca_descriptors_length : List Descriptor → ℕ
get_ca_descriptors_length [] = 0
get_ca_descriptors_length (d ∷ ds) =
    (if d.tag == 0x09 then d.length else 0) + get_ca_descriptors_length ds

-- memcpy of `n` bytes.
abbrev pub copy : ℕ → List ℕ → Option (List ℕ)
copy n bytes = if leb n (length bytes) then some (take n bytes) else none

unfoldable pub write_ca_descriptors : List Descriptor → Option (List ℕ)
write_ca_descriptors [] = some []
write_ca_descriptors (d ∷ ds) = do
  here ← if d.tag == 0x09 then copy d.length d.bytes else some []
  rest ← write_ca_descriptors ds
  some (here ++ rest)

-- The length with the byte of the cmd_id, as it is put in `lengths`.
abbrev pub block_length : List Descriptor → ℕ
block_length ds = let len = get_ca_descriptors_length ds in if ltb 0 len then len + 1 else len

-- The 16-bit length, then the cmd_id and the descriptors if there are any.
unfoldable pub write_block : ℕ → ℕ → List Descriptor → Option (List ℕ)
unfolding write_ca_descriptors
write_block len cmd_id ds =
    if len == 0
    then some (be16 len)
    else do body ← write_ca_descriptors ds; some (be16 len ++ (cmd_id ∷ body))

-- The second loop: it takes the lengths off the front of the list.
unfoldable pub write_streams : ℕ → List PmtStream → List ℕ → Option (List ℕ)
unfolding write_block
write_streams cmd_id [] lengths = some []
write_streams cmd_id (s ∷ ss) [] = none
write_streams cmd_id (s ∷ ss) (len ∷ lengths) = do
  block ← write_block len cmd_id s.descriptors
  rest ← write_streams cmd_id ss lengths
  some ((s.stream_type ∷ be16 s.pid) ++ (block ++ rest))

-- The first loop: `body_size` after the streams.
unfoldable pub streams_size : List PmtStream → ℕ
streams_size [] = 0
streams_size (s ∷ ss) = (5 + block_length s.descriptors) + streams_size ss

-- The buffer and `*size`.
unfoldable pub build_ca_pmt : Pmt → ℕ → ℕ → Option (List ℕ × ℕ)
unfolding write_block write_streams streams_size
build_ca_pmt pmt list_management cmd_id =
    let len = block_length pmt.descriptors in
    let lengths = map (λ (s : PmtStream). block_length s.descriptors) pmt.streams in
    let body_size = (6 + len) + streams_size pmt.streams in
    do
      program ← write_block len cmd_id pmt.descriptors
      streams ← write_streams cmd_id pmt.streams lengths
      some (
        (list_management ∷ be16 pmt.subtable_extension)
            ++ ((pmt.version_number * 2 + 1) % 256 ∷ program ++ streams),
        body_size,
      )
