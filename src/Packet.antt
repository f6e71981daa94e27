-- ===== src/Packet.antt =====
-- Packets: a header of two 16-bit fields and a payload (PacketHeader of common/protocol.hpp,
-- buildPacket of server/commands/command_utils.cpp).
pub mod Framing
use teams_mirror.Prelude.{ℕ, ◌%◌, [], ◌++◌, if◌then◌else◌, ltb, length}
use teams_mirror.Bytes.{Bytes}
use teams_mirror.Protocol.{StatusCode, err_server_internal, status_code}
use teams_mirror.Protocol.Integers.{le_bytes, u16_at}

pub record PacketHeader : Type 0 where
  pub code : ℕ
  pub payload_size : ℕ

-- sizeof(PacketHeader)
abbrev pub header_size : ℕ
header_size = 4

unfoldable pub encode_header : PacketHeader → Bytes
unfolding le_bytes
encode_header h = le_bytes 2 h.code ++ le_bytes 2 h.payload_size

unfoldable pub decode_header : Bytes → PacketHeader
unfolding u16_at
decode_header bytes = record { code = u16_at 0 bytes; payload_size = u16_at 2 bytes }

-- std::numeric_limits<std::uint16_t>::max()
abbrev pub max_packet_payload_size : ℕ
max_packet_payload_size = 65535

abbrev frame : ℕ → Bytes → Bytes
frame code payload =
    encode_header (record { code = code; payload_size = length payload % 65536 }) ++ payload

-- A payload that is too long is replaced by an error packet with no payload.
unfoldable pub build_packet : ℕ → Bytes → Bytes
unfolding encode_header status_code
build_packet code payload =
    if ltb max_packet_payload_size (length payload)
    then frame (status_code err_server_internal) []
    else frame code payload

-- The packet of a status, with no payload or with the given one.
unfoldable pub status_packet : StatusCode → Bytes → Bytes
unfolding build_packet
status_packet status payload = build_packet (status_code status) payload
