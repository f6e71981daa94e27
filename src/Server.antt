-- ===== src/Server.antt =====
-- The state that the command handlers share (CommandContext of server/commands/command_context.hpp), and
-- how they queue packets (server/commands/command_utils.cpp). The handlers are functions on `Server`.
pub mod Uuid
pub mod Queueing
use teams_mirror.Prelude.{ℕ, ◌+◌, ◌==◌, Bool, Option, List, [], ◌∷◌, ◌++◌, if◌then◌else◌}
use teams_mirror.Prelude.Int.{ℤ}
use teams_mirror.Bytes.{Bytes}
use teams_mirror.Map.{Map}
use teams_mirror.Protocol.{StatusCode}
use teams_mirror.Packet.{status_packet}
use teams_mirror.Clients.{ClientManager, queue_data_to_send}
use teams_mirror.Models.User.{User}
use teams_mirror.Models.Message.{Message}
use teams_mirror.Models.Team.{Team}

-- The calls of ServerLogger, which hands them to a library outside the repository.
pub data LogEvent : Type 0 where
  user_created : Bytes → Bytes → LogEvent
  user_loaded : Bytes → Bytes → LogEvent
  user_logged_in : Bytes → LogEvent
  user_logged_out : Bytes → LogEvent
  team_created : Bytes → Bytes → Bytes → LogEvent
  channel_created : Bytes → Bytes → Bytes → LogEvent
  thread_created : Bytes → Bytes → Bytes → Bytes → Bytes → LogEvent
  reply_created : Bytes → Bytes → Bytes → LogEvent
  user_subscribed : Bytes → Bytes → LogEvent
  user_unsubscribed : Bytes → Bytes → LogEvent
  private_message_sent : Bytes → Bytes → Bytes → LogEvent

-- What the handlers take from outside: the numbers of the random engine and the readings of the clock, by
-- the number of those taken before, std::sort by creation time, and how often the search for an unused
-- identifier is tried.
pub record Env : Type 0 where
  pub draw : ℕ → ℕ
  pub time : ℕ → ℤ
  pub sort_by_creation : List Message → List Message
  pub attempts : ℕ

pub record Server : Type 0 where
  pub clients : ClientManager
  pub users : List User
  pub teams : List Team
  pub messages : List Message
  pub authenticated_users_by_fd : Map ℕ Bytes
  pub authenticated_users_by_uuid : Map Bytes (List ℕ)
  pub logs : List LogEvent
  pub draws : ℕ
  pub clock_reads : ℕ

-- The request that a handler serves.
pub record Request : Type 0 where
  pub client_fd : ℕ
  pub payload_data : Bytes
  pub payload_size : ℕ

unfoldable pub queue_packet : ℕ → Bytes → Server → Server
queue_packet fd packet s = record s { clients = queue_data_to_send fd packet s.clients }

unfoldable pub queue_status : Request → StatusCode → Server → Server
unfolding queue_packet
queue_status r status s = queue_packet r.client_fd (status_packet status []) s

-- queuePacket to the client of the request, of buildPacket with a payload.
unfoldable pub queue_reply : Request → StatusCode → Bytes → Server → Server
unfolding queue_packet
queue_reply r status payload s = queue_packet r.client_fd (status_packet status payload) s

abbrev pub log : LogEvent → Server → Server
log event s = record s { logs = s.logs ++ event ∷ [] }

-- One packet to each descriptor of a list, in its order.
unfoldable pub queue_each : List ℕ → Bytes → Server → Server
queue_each [] packet s = s
queue_each (fd ∷ fds) packet s = queue_each fds packet (queue_packet fd packet s)

-- The descriptors of a map, in its order.
unfoldable pub keys : Map ℕ Bytes → List ℕ
keys [] = []
keys ((fd, uuid) ∷ m) = fd ∷ keys m

-- The descriptors whose user satisfies a test.
unfoldable pub keys_if : (Bytes → Bool) → Map ℕ Bytes → List ℕ
keys_if p [] = []
keys_if p ((fd, uuid) ∷ m) = let rest = keys_if p m in if p uuid then fd ∷ rest else rest
