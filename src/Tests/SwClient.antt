-- ===== src/Tests/SwClient.antt =====
-- The client of a software CAM at concrete inputs.
use helia.Common.{◌≡◌, refl, some, none, List, ℕ, ◌++◌, ◌∷◌, [], inl, arith}
use helia.Cam.CaPmt.{get_ca_descriptors_length, streams_size}
use helia.Cam.Wire.{read_apdu}
use helia.Cam.CaPmt.Decode.{decode_ca_pmt, pmt_view}
use helia.Cam.SwClient.{
  Client, client_opened, pointing, called_write, client_close, client_free, client_send_ca_pmt,
  client_send_ca_pmt-sends, client_close-client_free,
}
use helia.Tests.Codec.{pmt, pmt-PmtFits}

abbrev opened : Client
opened = record {
  state = client_opened;
  sock_path = pointing (47 ∷ 115 ∷ []);
  sock = 5;
  calls = [];
}

client_send_ca_pmt-sends_example :
    (message body : List ℕ) × (client_send_ca_pmt opened pmt 3 1
      ≡ some (record opened { calls = [] ++ (called_write 5 message ∷ []) }))
    × (read_apdu message ≡ some (0x9F8032, body))
    × (decode_ca_pmt body ≡ some (pmt_view pmt 3 1))
unfolding get_ca_descriptors_length streams_size
client_send_ca_pmt-sends_example =
    client_send_ca_pmt-sends opened pmt 3 1 pmt-PmtFits (inl (omega arith)) (omega arith)

client_close-client_free_example :
    (after : Client) × (client_close opened ≡ some after) × (client_free after ≡ none)
client_close-client_free_example = client_close-client_free opened (47 ∷ 115 ∷ []) refl refl
