-- ===== src/Tests/Codec.antt =====
-- The length_field and the ca_pmt at concrete inputs.
use helia.Common.{ℕ, ◌≡◌, refl, ◌↔◌, List, [], ◌∷◌, ◌++◌, some, length, arith, ◌<◌, ◌⊎◌}
use helia.Cam.LengthField.{calc_length_field_size, write_length_field, read_length_field}
use helia.Cam.LengthField.RoundTrip.{read-write_iff}
use helia.Cam.CaPmt.{Pmt, Descriptor, build_ca_pmt, get_ca_descriptors_length}
use helia.Cam.CaPmt.Descriptors.{OnlyEmptyRead}
use helia.Cam.CaPmt.Decode.{decode-build_ca_pmt, decode_ca_pmt, pmt_view, PmtFits}

read-write_iff_example :
    (read_length_field (write_length_field 300 ++ (7 ∷ []))
      ≡ some (calc_length_field_size 300, 300))
    ↔ ((300 < 128) ⊎ (◌≡◌ {A = ℕ} 300 255))
read-write_iff_example = read-write_iff 300 (7 ∷ []) (omega arith)

abbrev field : List ℕ
field = 0x82 ∷ 1 ∷ 44 ∷ 0 ∷ 0 ∷ []

abbrev descriptor : Descriptor
descriptor = record { tag = 0x09; length = 4; bytes = 0x09 ∷ 4 ∷ 0x0B ∷ 0x00 ∷ 0xE1 ∷ 0x23 ∷ [] }

abbrev pub pmt : Pmt
pmt = record {
  subtable_extension = 0x1234;
  version_number = 5;
  descriptors = descriptor ∷ [];
  streams = record { stream_type = 2; pid = 0x100; descriptors = [] } ∷ [];
}

pub pmt-PmtFits : PmtFits pmt
unfolding get_ca_descriptors_length
pmt-PmtFits = record {
  program_number = omega arith;
  version_number = omega arith;
  descriptors = record {
    laid_out =
        (record { content = 0x0B ∷ 0x00 ∷ 0xE1 ∷ 0x23 ∷ []; layout = refl; counted = refl }, tt);
    short = omega arith;
  };
  streams = (
    record { descriptors = record { laid_out = tt; short = omega arith }; pid = omega arith },
    tt,
  );
}

decode-build_ca_pmt_example :
    (bytes : List ℕ) × (build_ca_pmt pmt 3 1 ≡ some (bytes, length bytes))
    × (decode_ca_pmt bytes ≡ some (pmt_view pmt 3 1))
    × OnlyEmptyRead (descriptor ∷ [])
    × (OnlyEmptyRead [] × Unit {0})
decode-build_ca_pmt_example = decode-build_ca_pmt pmt 3 1 pmt-PmtFits
