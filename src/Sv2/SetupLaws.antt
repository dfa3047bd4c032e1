-- ===== src/Sv2/SetupLaws.antt =====
-- pkg/stratumv2/messages.go: the decoder of SetupConnection.
use forgenx_engine.Prelude.{
  ℕ, ◌+◌, ◌≡◌, refl, List, ◌∷◌, ◌++◌, append_assoc, ok, ltb, false, length, length-append, arith,
}
use forgenx_engine.Prelude.Bytes.{
  le16, le32, byte_at, from_le-le16, from_le-le32, get_u16_le, get_u32_le, get_u16_le-field,
}
use forgenx_engine.Sv2.Wire.{decode_str0_255}
use forgenx_engine.Sv2.WireLaws.{counted, decode_str0_255-counted}
use forgenx_engine.Sv2.Decode.{SetupConnectionFields, decode_setup_connection}
use forgenx_engine.Sv2.DecodeLaws.{IsU16, IsU32}

pub record IsSetup (m : SetupConnectionFields) : Type 0 where
  pub min_version_fits : IsU16 m.min_version
  pub max_version_fits : IsU16 m.max_version
  pub flags_fit : IsU32 m.flags
  pub endpoint_port_fits : IsU16 m.endpoint_port

fixed_part : SetupConnectionFields → List ℕ
fixed_part m = m.protocol ∷ (le16 m.min_version ++ (le16 m.max_version ++ le32 m.flags))

pub wire_setup_connection : SetupConnectionFields → List ℕ → List ℕ
wire_setup_connection m rest =
    fixed_part m
    ++ (counted m.endpoint_host
        ++ (le16 m.endpoint_port
            ++ (counted m.vendor
                ++ (counted m.hardware_version
                    ++ (counted m.firmware ++ (counted m.device_id ++ rest))))))

module _ (m : SetupConnectionFields) (rest : List ℕ) where
  open m use {
    endpoint_host as host, endpoint_port as port, vendor, hardware_version as hardware, firmware,
    device_id,
  }

  host_at : decode_str0_255 (wire_setup_connection m rest) 9 ≡ ok (host, length host + 1)
  unfolding wire_setup_connection fixed_part
  host_at = decode_str0_255-counted (fixed_part m) host _ 9 refl

  port_at : IsU16 port → get_u16_le (wire_setup_connection m rest) (9 + (length host + 1)) ≡ port
  unfolding wire_setup_connection fixed_part
  port_at h = simp append_assoc at (
      get_u16_le-field (fixed_part m ++ counted host) port
        (counted vendor ++ (counted hardware ++ (counted firmware ++ (counted device_id ++ rest))))
        (9 + (length host + 1)) (omega arith) h)

  vendor_at :
      decode_str0_255 (wire_setup_connection m rest) (9 + (length host + 1) + 2)
      ≡ ok (vendor, length vendor + 1)
  unfolding wire_setup_connection fixed_part
  vendor_at = simp append_assoc at (
      decode_str0_255-counted (fixed_part m ++ (counted host ++ le16 port)) vendor
        (counted hardware ++ (counted firmware ++ (counted device_id ++ rest)))
        (9 + (length host + 1) + 2) (omega (arith, length-append host (le16 port))))

  hardware_at :
      decode_str0_255
        (wire_setup_connection m rest)
        (9 + (length host + 1) + 2 + (length vendor + 1))
      ≡ ok (hardware, length hardware + 1)
  unfolding wire_setup_connection fixed_part
  hardware_at = simp append_assoc at (
      decode_str0_255-counted (fixed_part m ++ (counted host ++ (le16 port ++ counted vendor)))
        hardware (counted firmware ++ (counted device_id ++ rest))
        (9 + (length host + 1) + 2 + (length vendor + 1))
        (omega (arith, length-append host (le16 port ++ counted vendor))))

  firmware_at :
      decode_str0_255
        (wire_setup_connection m rest)
        (9 + (length host + 1) + 2 + (length vendor + 1) + (length hardware + 1))
      ≡ ok (firmware, length firmware + 1)
  unfolding wire_setup_connection fixed_part
  firmware_at = simp append_assoc at (
      decode_str0_255-counted
        (fixed_part m ++ (counted host ++ (le16 port ++ (counted vendor ++ counted hardware))))
        firmware (counted device_id ++ rest)
        (9 + (length host + 1) + 2 + (length vendor + 1) + (length hardware + 1))
        (omega (
          arith,
          length-append host (le16 port ++ (counted vendor ++ counted hardware)),
          length-append vendor (counted hardware),
        )))

  device_at :
      decode_str0_255 (wire_setup_connection m rest) (
        9
        + (length host + 1)
        + 2
        + (length vendor + 1)
        + (length hardware + 1)
        + (length firmware + 1))
      ≡ ok (device_id, length device_id + 1)
  unfolding wire_setup_connection fixed_part
  device_at = simp append_assoc at (
      decode_str0_255-counted
        (fixed_part m
          ++ (counted host
              ++ (le16 port ++ (counted vendor ++ (counted hardware ++ counted firmware)))))
        device_id rest
        (9
          + (length host + 1)
          + 2
          + (length vendor + 1)
          + (length hardware + 1)
          + (length firmware + 1))
        (omega (
          arith,
          length-append host
              (le16 port ++ (counted vendor ++ (counted hardware ++ counted firmware))),
          length-append vendor (counted hardware ++ counted firmware),
          length-append hardware (counted firmware),
        )))

  enough : ltb (length (wire_setup_connection m rest)) 9 ≡ false
  unfolding wire_setup_connection fixed_part
  enough = ground arith

  to_port : ltb (length (wire_setup_connection m rest)) (9 + (length host + 1) + 2) ≡ false
  unfolding wire_setup_connection fixed_part
  to_port = ground (
    arith,
    length-append host (
        le16 port
        ++ (counted vendor
            ++ (counted hardware ++ (counted firmware ++ (counted device_id ++ rest))))),
  )

  min_at : IsU16 m.min_version → get_u16_le (wire_setup_connection m rest) 1 ≡ m.min_version
  unfolding wire_setup_connection fixed_part get_u16_le
  min_at h = from_le-le16 m.min_version h

  max_at : IsU16 m.max_version → get_u16_le (wire_setup_connection m rest) 3 ≡ m.max_version
  unfolding wire_setup_connection fixed_part get_u16_le
  max_at h = from_le-le16 m.max_version h

  flags_at : IsU32 m.flags → get_u32_le (wire_setup_connection m rest) 5 ≡ m.flags
  unfolding wire_setup_connection fixed_part get_u32_le
  flags_at h = from_le-le32 m.flags h

  protocol_at : byte_at (wire_setup_connection m rest) 0 ≡ m.protocol
  unfolding wire_setup_connection fixed_part
  protocol_at = refl

-- A SetupConnection whose numbers fit their widths, in wire order, is decoded to its ten fields,
-- whatever follows it.
pub decode_setup_connection-wire :
    (m : SetupConnectionFields) (rest : List ℕ)
    → IsSetup m
    → decode_setup_connection (wire_setup_connection m rest) ≡ ok m
unfolding decode_setup_connection
decode_setup_connection-wire m rest h = rw (
  enough m rest,
  host_at m rest,
  to_port m rest,
  vendor_at m rest,
  hardware_at m rest,
  firmware_at m rest,
  device_at m rest,
  protocol_at m rest,
  min_at m rest h.min_version_fits,
  max_at m rest h.max_version_fits,
  flags_at m rest h.flags_fit,
  port_at m rest h.endpoint_port_fits,
)
