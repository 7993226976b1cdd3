-- ===== src/Cam/LengthField.antt =====
-- gst/gst-dvb/camutils.c: the length_field of TPDUs and APDUs.
-- A `guint8 *` that is read is the list of the bytes from there to the end of the memory, and
-- `none` is a read past that end. A byte's `& ~0x80` is `% 128`.
pub mod RoundTrip
use helia.Common.{
  ℕ, zero, suc, ◌+◌, ◌-◌, ◌*◌, ◌/◌, ◌%◌, ◌^◌, Option, none, some, List, [], ◌∷◌, ltb, leb,
  if◌then◌else◌,
}
use mathlib.Core.Option

unfoldable pub calc_length_field_size : ℕ → ℕ
calc_length_field_size length =
    if ltb length 255
    then 1
    else if leb length 65535
    then 3
    else if leb length (2 ^ 24 - 1)
    then 4
    else 5

-- The bytes stored at `buff`: as many as `calc_length_field_size` says. Each store into a guint8
-- keeps the low eight bits.
unfoldable pub write_length_field : ℕ → List ℕ
unfolding calc_length_field_size
write_length_field length =
    if ltb length 255
    then length % 256 ∷ []
    else if leb length 65535
    then 0x82 ∷ length / 2 ^ 8 % 256 ∷ length % 256 ∷ []
    else if leb length (2 ^ 24 - 1)
    then 0x83 ∷ length / 2 ^ 16 % 256 ∷ length / 2 ^ 8 % 256 ∷ length % 256 ∷ []
    else 0x84
      ∷ length / 2 ^ 24 % 256
      ∷ length / 2 ^ 16 % 256
      ∷ length / 2 ^ 8 % 256
      ∷ length % 256
      ∷ []

-- The loop of `cam_read_length_field`: `len` is a guint8.
unfoldable pub read_bytes : ℕ → ℕ → List ℕ → Option ℕ
read_bytes zero len buff = some len
read_bytes (suc i) len [] = none
read_bytes (suc i) len (b ∷ buff) = read_bytes i ((len * 256 + b) % 256) buff

-- The size of the field and the length that it holds, (0, 0) for a field that is refused.
unfoldable pub read_length_field : List ℕ → Option (ℕ × ℕ)
unfolding read_bytes
read_length_field [] = none
read_length_field (b ∷ buff) =
    if leb b 127
    then some (1, b)
    else if ltb 4 (b % 128)
    then some (0, 0)
    else Option.map (λ len. (b % 128 + 1, len)) (read_bytes (b % 128) 0 buff)
