-- ===== src/Packet/Framing.antt =====
-- What a receiver reads back from a packet, and how long a packet is.
use teams_mirror.Prelude.{
  ℕ, ◌≤◌, ◌<◌, ◌≡◌, refl, ◌++◌, arith, length, drop, take, take-append, drop-append, le→ltb,
}
use teams_mirror.Bytes.{Bytes}
use teams_mirror.Packet.{
  PacketHeader, header_size, encode_header, decode_header, max_packet_payload_size, build_packet,
}

pub decode-encode_header :
    (c s : ℕ) (rest : Bytes)
    → c < 65536
    → s < 65536
    → decode_header (encode_header (record { code = c; payload_size = s }) ++ rest)
      ≡ record { code = c; payload_size = s }
unfolding encode_header decode_header
decode-encode_header c s rest hc hs = ground arith

pub length-encode_header : (h : PacketHeader) → length (encode_header h) ≡ 4
unfolding encode_header
length-encode_header h = refl

-- Whatever follows it in the stream, a packet whose code and payload fit their fields is read back: the header gives its code
-- and the payload's size, and the bytes behind the header are the payload and what follows.
pub decode-build_packet :
    (c : ℕ) (p rest : Bytes)
    → c < 65536
    → length p ≤ max_packet_payload_size
    → (decode_header (build_packet c p ++ rest) ≡ record { code = c; payload_size = length p })
      × (take (length p) (drop header_size (build_packet c p ++ rest)) ≡ p)
      × (drop (length p) (drop header_size (build_packet c p ++ rest)) ≡ rest)
unfolding build_packet
decode-build_packet c p rest hc hp = rw (le→ltb max_packet_payload_size (length p) hp) (
  unfold decode_header in ground arith,
  take-append (length p) p rest refl,
  drop-append (length p) p rest refl,
)
