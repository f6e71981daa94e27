-- ===== src/Examples/World.antt =====
-- Two users, one of them logged in at two descriptors, and a team.
use teams_mirror.Prelude.{ℕ, [], ◌∷◌, ◌++◌, replicate}
use teams_mirror.Prelude.Int.{pos}
use teams_mirror.Bytes.{Bytes}
use teams_mirror.Clients.{Client}
use teams_mirror.Server.{Env, Server, Request}
use teams_mirror.Models.User.{User}
use teams_mirror.Models.Team.{Team}

-- An identifier of one digit.
abbrev pub uuid_of : ℕ → Bytes
uuid_of digit =
    replicate 8 digit
    ++ b'-' ∷ replicate 4 digit
    ++ b'-' ∷ replicate 4 digit
    ++ b'-' ∷ replicate 4 digit
    ++ b'-' ∷ replicate 12 digit

abbrev pub alice : Bytes
alice = uuid_of b'a'

abbrev pub bob : Bytes
bob = uuid_of b'b'

abbrev pub crew : Bytes
crew = uuid_of b'c'

abbrev pub stored : Bytes → Bytes
stored uuid = uuid ++ 0 ∷ []

abbrev pub alice_user : User
alice_user = record { uuid = stored alice; name = b'a' ∷ replicate 31 0; is_logged_in = 2 }

abbrev pub bob_user : User
bob_user = record { uuid = stored bob; name = b'b' ∷ replicate 31 0; is_logged_in = 0 }

abbrev pub crew_team : Team
crew_team = record {
  uuid = stored crew;
  name = b'c' ∷ replicate 31 0;
  description = replicate 255 0;
  subscribed_user_uuids = stored bob ∷ [];
  channels = [];
}

-- A client with the given bytes in its incoming buffer.
abbrev pub client_with : Bytes → Client
client_with incoming = record {
  incoming_buffer = incoming;
  outgoing_buffer = [];
  ctx_team_uuid = replicate 37 0;
  ctx_channel_uuid = replicate 37 0;
  ctx_thread_uuid = replicate 37 0;
}

-- Alice is logged in at the descriptors 4 and 5, and the client at 6 is not logged in.
abbrev pub world : Bytes → Server
world incoming = record {
  clients = (4, client_with incoming) ∷ (5, client_with []) ∷ (6, client_with []) ∷ [];
  users = alice_user ∷ bob_user ∷ [];
  teams = crew_team ∷ [];
  messages = [];
  authenticated_users_by_fd = (4, alice) ∷ (5, alice) ∷ [];
  authenticated_users_by_uuid = (alice, 4 ∷ 5 ∷ []) ∷ [];
  logs = [];
  draws = 0;
  clock_reads = 0;
}

abbrev pub env : Env
env = record {
  draw = λ n. 13;
  time = λ n. pos 0;
  sort_by_creation = λ messages. messages;
  attempts = 1;
}

abbrev pub request : ℕ → Bytes → ℕ → Request
request fd payload size = record { client_fd = fd; payload_data = payload; payload_size = size }
