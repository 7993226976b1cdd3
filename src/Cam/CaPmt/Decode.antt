-- ===== src/Cam/CaPmt/Decode.antt =====
-- A reader of the ca_pmt by the table in the comment of gst/gst-dvb/camutils.c, and the theorem on
-- what it reads of what `build_ca_pmt` writes.
use helia.Common.{
  ℕ, zero, suc, ◌+◌, ◌*◌, ◌/◌, ◌%◌, ◌^◌, ◌≤◌, ◌<◌, ◌≡◌, refl, sym, ap, Option, none, some, List, [],
  ◌∷◌, ◌++◌, map, append_assoc, length, take, drop, take-append, drop-append, length-append, All,
  arith, leb, ◌==◌, if◌then◌else◌, be16,
}
use helia.Common.Maybe.{◌>>=◌}
use helia.Cam.CaPmt.Descriptors.{
  IsDescriptor, shortened, OnlyEmptyRead, write_ca_descriptors-shortened, shortened-OnlyEmptyRead,
}
use helia.Cam.CaPmt.{
  Descriptor, PmtStream, Pmt, get_ca_descriptors_length, block_length, write_block, write_streams,
  streams_size, build_ca_pmt,
}

-- A loop of descriptors: its length in the low 12 bits of a word, then its bytes; and what follows.
pub read_block : List ℕ → Option (List ℕ × List ℕ)
read_block [] = none
read_block (a ∷ []) = none
read_block (a ∷ b ∷ r) =
    let n = (a % 16) * 256 + b in if leb n (length r) then some (take n r, drop n r) else none

pub record StreamView : Type 0 where
  pub stream_type : ℕ
  pub pid : ℕ
  pub block : List ℕ

pub record View : Type 0 where
  pub list_management : ℕ
  pub program_number : ℕ
  pub version_number : ℕ
  pub current_next : ℕ
  pub block : List ℕ
  pub streams : List StreamView

pub read_streams : ℕ → List ℕ → Option (List StreamView)
read_streams fuel [] = some []
read_streams zero (x ∷ r) = none
read_streams (suc fuel) (x ∷ []) = none
read_streams (suc fuel) (x ∷ y ∷ []) = none
read_streams (suc fuel) (x ∷ y ∷ z ∷ r) = do
  (block, rest) ← read_block r
  views ← read_streams fuel rest
  some (record { stream_type = x; pid = (y % 32) * 256 + z; block = block } ∷ views)

pub decode_ca_pmt : List ℕ → Option View
decode_ca_pmt (m ∷ p ∷ q ∷ v ∷ r) = do
  (block, rest) ← read_block r
  views ← read_streams (length rest) rest
  some (record {
    list_management = m;
    program_number = p * 256 + q;
    version_number = v / 2 % 32;
    current_next = v % 2;
    block = block;
    streams = views;
  })
decode_ca_pmt _ = none

-- What a loop holds: the cmd_id before the CA descriptors without their last two bytes, if that leaves
-- any bytes.
pub block_view : ℕ → List Descriptor → List ℕ
block_view cmd_id ds = if length (shortened ds) == 0 then [] else cmd_id ∷ shortened ds

abbrev pub stream_view : ℕ → PmtStream → StreamView
stream_view cmd_id s = record {
  stream_type = s.stream_type;
  pid = s.pid;
  block = block_view cmd_id s.descriptors;
}

-- The descriptors are laid out as they should be, and the loop fits its 12 bits.
pub record DescriptorsFit (ds : List Descriptor) : Type 0 where
  pub laid_out : All IsDescriptor ds
  pub short : get_ca_descriptors_length ds < 4095

pub record StreamFits (s : PmtStream) : Type 0 where
  pub descriptors : DescriptorsFit s.descriptors
  pub pid : s.pid < 2 ^ 13

pub record PmtFits (pmt : Pmt) : Type 0 where
  pub program_number : pmt.subtable_extension < 2 ^ 16
  pub version_number : pmt.version_number < 32
  pub descriptors : DescriptorsFit pmt.descriptors
  pub streams : All StreamFits pmt.streams

read_block-be16 :
    (n : ℕ) (body rest : List ℕ)
    → n ≡ length body
    → n < 4096
    → read_block (be16 n ++ (body ++ rest)) ≡ some (body, rest)
unfolding read_block
read_block-be16 n body rest e h =
    let field : n / 256 % 256 % 16 * 256 + n % 256 ≡ length body = omega arith in
    rw field (ground (arith, length-append body rest, take-append body rest, drop-append body rest))

write_block-view :
    (cmd_id : ℕ) (ds : List Descriptor)
    → DescriptorsFit ds
    → (write_block (block_length ds) cmd_id ds
        ≡ some (be16 (block_length ds) ++ block_view cmd_id ds))
      × (length (block_view cmd_id ds) ≡ block_length ds)
unfolding write_block block_view
write_block-view cmd_id ds f =
    let (e, l) = write_ca_descriptors-shortened ds f.laid_out in
    (ground (arith, e, l), ground (arith, e, l))

streams_bytes : ℕ → List PmtStream → List ℕ
streams_bytes cmd_id [] = []
streams_bytes cmd_id (s ∷ ss) =
    (s.stream_type ∷ be16 s.pid)
    ++ (be16 (block_length s.descriptors)
        ++ (block_view cmd_id s.descriptors ++ streams_bytes cmd_id ss))

-- The second loop uses up the lengths that the first loop made, and fills its part of the buffer.
write_streams-view :
    (cmd_id : ℕ) (ss : List PmtStream)
    → All StreamFits ss
    → (write_streams cmd_id ss (map (λ (s : PmtStream). block_length s.descriptors) ss)
        ≡ some (streams_bytes cmd_id ss))
      × (length (streams_bytes cmd_id ss) ≡ streams_size ss)
unfolding write_streams streams_size streams_bytes
write_streams-view cmd_id [] h = (refl, refl)
write_streams-view cmd_id (s ∷ ss) (f, fs) =
    let (e, l) = write_streams-view cmd_id ss fs in
    let (be, bl) = write_block-view cmd_id s.descriptors f.descriptors in
    (
      rw (e, be)
          (ground (
            arith,
            append_assoc (be16 (block_length s.descriptors)) (block_view cmd_id s.descriptors)
                (streams_bytes cmd_id ss),
          )),
      omega
          (arith, l, bl, length-append (block_view cmd_id s.descriptors) (streams_bytes cmd_id ss)),
    )

read_streams-bytes :
    (cmd_id fuel : ℕ) (ss : List PmtStream)
    → All StreamFits ss
    → length (streams_bytes cmd_id ss) ≤ fuel
    → read_streams fuel (streams_bytes cmd_id ss) ≡ some (map (stream_view cmd_id) ss)
unfolding read_streams streams_bytes
read_streams-bytes cmd_id fuel [] h le = refl
read_streams-bytes cmd_id zero (s ∷ ss) h le = absurd (omega arith)
read_streams-bytes cmd_id (suc fuel) (s ∷ ss) (f, fs) le =
    let (e, l) = write_block-view cmd_id s.descriptors f.descriptors in
    let short : block_length s.descriptors < 4096 = ground arith in
    let tail_le : length (streams_bytes cmd_id ss) ≤ fuel =
      omega (arith, length-append (block_view cmd_id s.descriptors) (streams_bytes cmd_id ss)) in
    let id : s.pid / 256 % 256 % 32 * 256 + s.pid % 256 ≡ s.pid = omega arith in
    rw
      (
        read_block-be16 (block_length s.descriptors) (block_view cmd_id s.descriptors)
            (streams_bytes cmd_id ss) (sym l) short,
        id,
      )
      (rw (read_streams-bytes cmd_id fuel ss fs tail_le))

streams-OnlyEmptyRead :
    (ss : List PmtStream)
    → All StreamFits ss
    → All (λ (s : PmtStream). OnlyEmptyRead s.descriptors) ss
streams-OnlyEmptyRead [] h = tt
streams-OnlyEmptyRead (s ∷ ss) (f, fs) =
    (shortened-OnlyEmptyRead s.descriptors f.descriptors.laid_out, streams-OnlyEmptyRead ss fs)

abbrev pub pmt_view : Pmt → ℕ → ℕ → View
pmt_view pmt list_management cmd_id = record {
  list_management = list_management;
  program_number = pmt.subtable_extension;
  version_number = pmt.version_number;
  current_next = 1;
  block = block_view cmd_id pmt.descriptors;
  streams = map (stream_view cmd_id) pmt.streams;
}

-- The size that is computed for it.
abbrev pub ca_pmt_size : Pmt → ℕ
ca_pmt_size pmt = (6 + block_length pmt.descriptors) + streams_size pmt.streams

pub build_ca_pmt_lem :
    (pmt : Pmt) (list_management cmd_id : ℕ)
    → PmtFits pmt
    → (bytes : List ℕ) × (build_ca_pmt pmt list_management cmd_id ≡ some (bytes, length bytes))
      × (length bytes ≡ ca_pmt_size pmt)
      × (decode_ca_pmt bytes ≡ some (pmt_view pmt list_management cmd_id))
unfolding build_ca_pmt decode_ca_pmt
build_ca_pmt_lem pmt m cmd_id f =
    let (be, bl) = write_block-view cmd_id pmt.descriptors f.descriptors in
    let (se, sl) = write_streams-view cmd_id pmt.streams f.streams in
    let block = block_view cmd_id pmt.descriptors in
    let rest = streams_bytes cmd_id pmt.streams in
    let short : block_length pmt.descriptors < 4096 = ground arith in
    (
      (m ∷ be16 pmt.subtable_extension)
          ++ ((pmt.version_number * 2 + 1) % 256 ∷ (be16 (block_length pmt.descriptors) ++ block)
              ++ rest),
      rw (be, se)
          (ap
            (λ (n : ℕ). some (
              (m ∷ be16 pmt.subtable_extension)
                  ++ ((pmt.version_number * 2 + 1) % 256
                        ∷ (be16 (block_length pmt.descriptors) ++ block)
                      ++ rest),
              n,
            ))
            (omega (arith, bl, sl, length-append block rest))),
      omega (arith, bl, sl, length-append block rest),
      rw (read_block-be16 (block_length pmt.descriptors) block rest (sym bl) short) (
          rw (read_streams-bytes cmd_id (length rest) pmt.streams f.streams (omega arith))
            (ground arith)),
    )

-- For a PMT whose fields fit and whose descriptors are laid out with tag, length and content,
-- `build_ca_pmt` reads no array past its end, fills its buffer exactly, and the buffer is read as a ca_pmt:
-- the list management, the program number, the version, and for the program and each stream, in order,
-- the cmd_id and the CA descriptors, but each without its last two bytes. So the CA descriptors of the
-- program, and of each stream, cannot be read back from what is written of them, unless there are none.
pub decode-build_ca_pmt :
    (pmt : Pmt) (list_management cmd_id : ℕ)
    → PmtFits pmt
    → (bytes : List ℕ) × (build_ca_pmt pmt list_management cmd_id ≡ some (bytes, length bytes))
      × (decode_ca_pmt bytes ≡ some (pmt_view pmt list_management cmd_id))
      × OnlyEmptyRead pmt.descriptors
      × All (λ (s : PmtStream). OnlyEmptyRead s.descriptors) pmt.streams
decode-build_ca_pmt pmt m cmd_id f =
    let (bytes, built, size, view) = build_ca_pmt_lem pmt m cmd_id f in
    (
      bytes,
      built,
      view,
      shortened-OnlyEmptyRead pmt.descriptors f.descriptors.laid_out,
      streams-OnlyEmptyRead pmt.streams f.streams,
    )
