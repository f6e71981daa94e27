-- ===== src/Dispatcher/Termination.antt =====
-- The loop of processClientIncomingPackets ends: every packet that is dispatched takes bytes away.
use teams_mirror.Prelude.{
  ℕ, zero, suc, ◌<◌, ◌≤◌, ◌≡◌, refl, ◌∙◌, ap, sym, none, some, arith, length, ◌⊎◌, inl, inr,
  Option-cases, length-drop, nat_eq,
}
use teams_mirror.Bytes.{Bytes}
use teams_mirror.Clients.{get_incoming_buffer, consume}
use teams_mirror.Clients.Incoming.{get_incoming-find, get_incoming-consume, or_empty}
use teams_mirror.Map.{find}
use teams_mirror.Server.{Env, Server, Request}
use teams_mirror.Dispatcher.{
  dispatch_command, next_packet, request_of, consume_packet, process_client_incoming_packets,
  Processed, finished, unanswered,
}
use teams_mirror.Dispatcher.Incoming.{dispatch-KeepsIncoming}

-- The packet at the head of a buffer has at least the bytes of its header, and so has the buffer.
next_packet-size :
    (b : Bytes) (code size : ℕ) (payload : Bytes)
    → next_packet b ≡ some (code, payload, size)
    → (4 ≤ size) × (4 ≤ length b)
unfolding next_packet
next_packet-size b code size payload h = ground arith

length-consume :
    (size : ℕ) (b : Bytes) → 0 < size → 0 < length b → length (consume size b) < length b
length-consume size b h k = ground (arith, length-drop size b)

-- The buffer after a packet was dispatched and consumed.
buffer_after :
    (env : Env) (fd code size : ℕ) (r : Request) (s t : Server)
    → dispatch_command env code r s ≡ some t
    → get_incoming_buffer fd (consume_packet fd size t).clients
      ≡ consume size (get_incoming_buffer fd s.clients)
buffer_after env fd code size r s t h =
    get_incoming-consume fd size t.clients
    ∙ ap (consume size) (
        get_incoming-find fd t.clients
        ∙ ap (λ m. or_empty (find fd m)) (dispatch-KeepsIncoming env r s code t h)
        ∙ sym (get_incoming-find fd s.clients))

-- How the loop may end: a handler gave nothing, or no whole packet is left in the buffer of the client.
abbrev pub Ends : ℕ → Processed → Type 0
Ends fd result =
    (result ≡ unanswered)
    ⊎ ((s' : Server) × (result ≡ finished s')
        × (next_packet (get_incoming_buffer fd s'.clients) ≡ none))

-- With more fuel than the client's buffer has bytes, the loop does not run out of it: it stops where a handler gives nothing, or
-- it goes on until no whole packet is left in the buffer.
pub process-Ends :
    (fuel : ℕ) (env : Env) (fd : ℕ) (s : Server)
    → length (get_incoming_buffer fd s.clients) < fuel
    → Ends fd (process_client_incoming_packets fuel env fd s)
unfolding process_client_incoming_packets
process-Ends zero env fd s h = absurd (ground arith)
process-Ends (suc fuel) env fd s h =
    elim (Option-cases (next_packet (get_incoming_buffer fd s.clients))) [
      | inl e ↦ rw (e, process_client_incoming_packets) (inr (s, refl, e))
      | inr ((code, payload, size), e) ↦
          elim (Option-cases (
            dispatch_command env code (request_of fd (get_incoming_buffer fd s.clients) payload)
              s)) [
                | inl d ↦ rw (e, process_client_incoming_packets, d) (inl refl)
                | inr (t, d) ↦
                    rw (e, process_client_incoming_packets, d)
                      (process-Ends fuel env fd (consume_packet fd size t)
                        (shorter code payload size t e d))
              ]
    ]
  where
    shorter :
        (code : ℕ) (payload : Bytes) (size : ℕ) (t : Server)
        → next_packet (get_incoming_buffer fd s.clients) ≡ some (code, payload, size)
        → dispatch_command env code (request_of fd (get_incoming_buffer fd s.clients) payload) s
          ≡ some t
        → length (get_incoming_buffer fd (consume_packet fd size t).clients) < fuel
    shorter code payload size t e d = rw (buffer_after env fd code size _ s t d) (
        ground (
          arith,
          next_packet-size (get_incoming_buffer fd s.clients) code size payload e,
          length-consume size (get_incoming_buffer fd s.clients),
        ))
