-- ===== src/Dispatcher/Stream.antt =====
-- Packets in a stream of bytes, which arrives in pieces.
use teams_mirror.Prelude.{
  ℕ, zero, suc, ◌+◌, ◌<◌, ◌≤◌, ◌≡◌, ◌∙◌, ap, none, some, [], ◌++◌, arith, length, take, drop,
  length-append, length-take, le→ltb,
}
use teams_mirror.Bytes.{Bytes}
use teams_mirror.Packet.{
  PacketHeader, header_size, decode_header, max_packet_payload_size, build_packet,
}
use teams_mirror.Packet.Framing.{decode-build_packet}
use teams_mirror.Dispatcher.{next_packet}

module _ (b : Bytes) (c n : ℕ) (h : decode_header b ≡ record { code = c; payload_size = n }) where
  -- What is taken from a buffer that starts with the given header.
  next_packet-enough :
      header_size + n ≤ length b
      → next_packet b ≡ some (c, take n (drop header_size b), header_size + n)
  unfolding next_packet
  next_packet-enough k = ground (arith, ap PacketHeader.code h, ap PacketHeader.payload_size h)

  next_packet-short : length b < header_size + n → next_packet b ≡ none
  unfolding next_packet
  next_packet-short k = ground (arith, ap PacketHeader.payload_size h)

next_packet-tiny : (b : Bytes) → length b < header_size → next_packet b ≡ none
unfolding next_packet
next_packet-tiny b k = ground arith

length-build_packet :
    (c : ℕ) (p : Bytes)
    → length p ≤ max_packet_payload_size
    → length (build_packet c p) ≡ header_size + length p
unfolding build_packet
length-build_packet c p hp = rw (le→ltb max_packet_payload_size (length p) hp) (omega arith)

-- A whole packet whose code and payload fit their fields, at the head of a buffer, is taken whatever follows it, with its code, its payload and its size.
pub next_packet-whole :
    (c : ℕ) (p rest : Bytes)
    → c < 65536
    → length p ≤ max_packet_payload_size
    → next_packet (build_packet c p ++ rest) ≡ some (c, p, header_size + length p)
next_packet-whole c p rest hc hp =
    let (header, payload, after) = decode-build_packet c p rest hc hp in
    next_packet-enough (build_packet c p ++ rest) c (length p) header
      (omega (arith, length-append (build_packet c p) rest, length-build_packet c p hp))
    ∙ ap (λ x. some (c, x, header_size + length p)) payload

-- While only a part of a packet whose code and payload fit their fields has arrived, no packet is taken.
pub next_packet-part :
    (c : ℕ) (p : Bytes) (n : ℕ)
    → c < 65536
    → length p ≤ max_packet_payload_size
    → n < header_size + length p
    → next_packet (take n (build_packet c p)) ≡ none
unfolding build_packet
next_packet-part c p zero hc hp h = next_packet-tiny [] (ground arith)
next_packet-part c p (suc zero) hc hp h =
    rw (le→ltb max_packet_payload_size (length p) hp) (next_packet-tiny _ (ground arith))
next_packet-part c p (suc (suc zero)) hc hp h =
    rw (le→ltb max_packet_payload_size (length p) hp) (next_packet-tiny _ (ground arith))
next_packet-part c p (suc (suc (suc zero))) hc hp h =
    rw (le→ltb max_packet_payload_size (length p) hp) (next_packet-tiny _ (ground arith))
next_packet-part c p (suc (suc (suc (suc m)))) hc hp h =
    rw (le→ltb max_packet_payload_size (length p) hp) (
      next_packet-short _ c (length p) (unfold decode_header in ground arith)
        (omega (arith, length-take m p)))
