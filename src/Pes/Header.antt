-- ===== src/Pes/Header.antt =====
-- gst/gst-demux/pesparse.h: the parsed header.
use helia.Common.{ℕ, ◌-◌, ◌^◌, Option, none}

-- PESHeader. A pointer into the packet is the offset; `none` is NULL.
pub record PesHeader : Type 0 where
  pub stream_id : ℕ
  pub packet_length : ℕ
  pub header_size : ℕ
  pub scrambling_control : ℕ
  pub flags : ℕ
  pub pts : ℕ
  pub dts : ℕ
  pub escr : ℕ
  pub es_rate : ℕ
  pub trick_mode : ℕ
  pub field_id : ℕ
  pub intra_slice_refresh : ℕ
  pub frequency_truncation : ℕ
  pub rep_cntrl : ℕ
  pub additional_copy_info : ℕ
  pub previous_pes_packet_crc : ℕ
  pub private_data : Option ℕ
  pub pack_header_size : ℕ
  pub pack_header : Option ℕ
  pub program_packet_sequence_counter : ℕ
  pub mpeg1_mpeg2_identifier : ℕ
  pub original_stuff_length : ℕ
  pub p_std_buffer_size : ℕ
  pub stream_id_extension : ℕ
  pub extension_field_length : ℕ
  pub stream_id_extension_data : Option ℕ

-- -1 in a guint64.
abbrev pub no_timestamp : ℕ
no_timestamp = 2 ^ 64 - 1

-- The header after it is cleared.
abbrev pub header_clear : PesHeader
header_clear = record {
  stream_id = 0;
  packet_length = 0;
  header_size = 0;
  scrambling_control = 0;
  flags = 0;
  pts = no_timestamp;
  dts = no_timestamp;
  escr = no_timestamp;
  es_rate = 0;
  trick_mode = 0;
  field_id = 0;
  intra_slice_refresh = 0;
  frequency_truncation = 0;
  rep_cntrl = 0;
  additional_copy_info = 0;
  previous_pes_packet_crc = 0;
  private_data = none;
  pack_header_size = 0;
  pack_header = none;
  program_packet_sequence_counter = 0;
  mpeg1_mpeg2_identifier = 0;
  original_stuff_length = 0;
  p_std_buffer_size = 0;
  stream_id_extension = 0;
  extension_field_length = 0;
  stream_id_extension_data = none;
}
