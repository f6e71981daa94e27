-- ===== src/Server/Queueing.antt =====
-- Queued packets add up in the outgoing buffer, and change nothing else.
use teams_mirror.Prelude.{
  ℕ, ◌≡◌, refl, ap, List, [], ◌∷◌, ◌++◌, append-nil, append_assoc, arith, nat_eq,
}
use teams_mirror.Bytes.{Bytes}
use teams_mirror.Map.{adjust}
use teams_mirror.Clients.{ClientManager, queue_data_to_send}
use teams_mirror.Server.{Server, queue_packet, queue_each}

pub queue_data-nil : (fd : ℕ) (m : ClientManager) → queue_data_to_send fd [] m ≡ m
unfolding queue_data_to_send adjust
queue_data-nil fd [] = refl
queue_data-nil fd ((j, c) ∷ m) = ground (arith, append-nil c.outgoing_buffer, queue_data-nil fd m)

pub queue_data-append :
    (fd : ℕ) (a b : Bytes) (m : ClientManager)
    → queue_data_to_send fd b (queue_data_to_send fd a m) ≡ queue_data_to_send fd (a ++ b) m
unfolding queue_data_to_send adjust
queue_data-append fd a b [] = refl
queue_data-append fd a b ((j, c) ∷ m) =
    ground (arith, append_assoc c.outgoing_buffer a b, queue_data-append fd a b m)

pub queue_packet-nil : (fd : ℕ) (s : Server) → queue_packet fd [] s ≡ s
unfolding queue_packet
queue_packet-nil fd s =
    ap (λ (m : ClientManager). record s { clients = m }) (queue_data-nil fd s.clients)

pub queue_packet-append :
    (fd : ℕ) (a b : Bytes) (s : Server)
    → queue_packet fd b (queue_packet fd a s) ≡ queue_packet fd (a ++ b) s
unfolding queue_packet
queue_packet-append fd a b s =
    ap (λ (m : ClientManager). record s { clients = m }) (queue_data-append fd a b s.clients)

-- The clients after one packet to each descriptor.
abbrev pub queue_data_each : List ℕ → Bytes → ClientManager → ClientManager
queue_data_each [] packet m = m
queue_data_each (fd ∷ fds) packet m = queue_data_each fds packet (queue_data_to_send fd packet m)

pub queue_each_lem :
    (fds : List ℕ) (packet : Bytes) (s : Server)
    → queue_each fds packet s ≡ record s { clients = queue_data_each fds packet s.clients }
unfolding queue_each queue_packet
queue_each_lem [] packet s = refl
queue_each_lem (fd ∷ fds) packet s = queue_each_lem fds packet (queue_packet fd packet s)
