-- ===== src/Sv2/Tests.antt =====
-- Messages of pkg/stratumv2 at concrete fields.
use forgenx_engine.Prelude.{ℕ, ◌≡◌, refl, List, [], ◌∷◌, ◌++◌, arith, length, true, false, ok}
use forgenx_engine.Prelude.Bytes.{zeros, le16, le32}
use forgenx_engine.Sv2.WireLaws.{counted, concat}
use forgenx_engine.Sv2.Decode.{SetupConnectionFields, decode_setup_connection}
use forgenx_engine.Sv2.Encode.{encode_open_extended_mining_channel_success}
use forgenx_engine.Sv2.EncodeJob.{encode_new_extended_mining_job}
use forgenx_engine.Sv2.EncodeLaws.{open_extended_layout}
use forgenx_engine.Sv2.Pow.{build_header}
use forgenx_engine.Sv2.PowLaws.{build_header_lem}
use forgenx_engine.Sv2.JobLaws.{option_u32, bool_byte, new_extended_mining_job_layout}
use forgenx_engine.Sv2.SetupLaws.{wire_setup_connection, decode_setup_connection-wire}

abbrev setup : SetupConnectionFields
setup = record {
  protocol = 0;
  min_version = 2;
  max_version = 2;
  flags = 5;
  endpoint_host = b'h' ∷ b'o' ∷ [];
  endpoint_port = 3336;
  vendor = b'v' ∷ [];
  hardware_version = [];
  firmware = b'f' ∷ b'w' ∷ [];
  device_id = b'd' ∷ [];
}

decode_setup_connection-wire_example :
    decode_setup_connection (wire_setup_connection setup (1 ∷ [])) ≡ ok setup
decode_setup_connection-wire_example = decode_setup_connection-wire setup (1 ∷ []) (record {
  min_version_fits = omega arith;
  max_version_fits = omega arith;
  flags_fit = omega arith;
  endpoint_port_fits = omega arith;
})

abbrev hash : List ℕ
hash = 1 ∷ zeros 31

new_extended_mining_job_layout_example :
    encode_new_extended_mining_job 1 2 false 3 4 true (hash ∷ []) (5 ∷ 6 ∷ []) (7 ∷ [])
    ≡ ok (
        le32 1
        ++ (le32 2
            ++ (option_u32 false 3
                ++ (le32 4
                    ++ (bool_byte true
                        ∷ 1
                        ∷ (concat (hash ∷ [])
                            ++ (le16 2 ++ ((5 ∷ 6 ∷ []) ++ (le16 1 ++ 7 ∷ [])))))))))
new_extended_mining_job_layout_example =
    new_extended_mining_job_layout 1 2 false 3 4 true (hash ∷ []) (5 ∷ 6 ∷ []) (7 ∷ [])
      (omega arith) (refl, tt) (omega arith) (omega arith)

open_extended_layout_example :
    encode_open_extended_mining_channel_success 1 2 hash 8 (3 ∷ 4 ∷ []) 5
    ≡ ok (le32 1 ++ (le32 2 ++ (hash ++ (le16 8 ++ (counted (3 ∷ 4 ∷ []) ++ le32 5)))))
open_extended_layout_example = open_extended_layout 1 2 hash 8 (3 ∷ 4 ∷ []) 5 refl (omega arith)

abbrev code : List ℕ
code = b'b' ∷ b'a' ∷ b'd' ∷ []

build_header_lem_example :
    (build_header 2 hash hash 3 4 5 ≡ le32 2 ++ (hash ++ (hash ++ (le32 3 ++ (le32 4 ++ le32 5)))))
    × (length (build_header 2 hash hash 3 4 5) ≡ 80)
build_header_lem_example = build_header_lem 2 hash hash 3 4 5 refl refl
