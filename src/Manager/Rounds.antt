-- ===== src/Manager/Rounds.antt =====
-- server/core/server_manager/server_manager.cpp: the loop of runPollLoop over the polled descriptors, and
-- removeClientAt. The vector is kept as the entries before the index and those from it on.
use teams_mirror.Prelude.{
  Option, ℕ, zero, suc, ◌+◌, ◌==◌, true, false, none, some, List, [], ◌∷◌, ◌++◌, if◌then◌else◌,
  nat_eq,
}
use teams_mirror.Map.{Map, emplace, erase}
use teams_mirror.Clients.{ClientManager, has_pending_write, add_client, remove_client}
use teams_mirror.Server.{Env, Server}
use teams_mirror.Commands.Logout.{handle_client_disconnection}
use teams_mirror.Manager.Service.{
  no_events, only_pollin, any_event, PollFd, Served, Kept, kept, dropped, unserved, uncaught,
  should_keep_client_connected,
}

-- appendClientPollFd: the entry that is appended.
unfoldable pub client_poll_fd : ℕ → PollFd
client_poll_fd fd = record { fd = fd; events = only_pollin; revents = no_events }

unfoldable pub refresh_client_poll_interest : ClientManager → PollFd → PollFd
refresh_client_poll_interest m p = record p {
  events = if has_pending_write p.fd m then record only_pollin { pollout = true } else only_pollin;
  revents = no_events;
}

unfoldable pub refresh_all_poll_interests : ClientManager → ℕ → List PollFd → List PollFd
unfolding refresh_client_poll_interest
refresh_all_poll_interests m listen_fd [] = []
refresh_all_poll_interests m listen_fd (p ∷ ps) =
    (if p.fd == listen_fd
      then record p { events = only_pollin; revents = no_events }
      else refresh_client_poll_interest m p)
    ∷ refresh_all_poll_interests m listen_fd ps

-- The descriptors of the entries of the vector.
unfoldable pub polled_fds : List PollFd → List ℕ
polled_fds [] = []
polled_fds (p ∷ ps) = p.fd ∷ polled_fds ps

-- The server with its sockets: which Socket owns each descriptor.
pub record World : Type 0 where
  pub server : Server
  pub client_sockets : Map ℕ ℕ

-- removeClientAt, but for the vector.
unfoldable pub remove_client_of : ℕ → World → World
remove_client_of fd w =
    let s = handle_client_disconnection fd w.server in
    record {
      server = record s { clients = remove_client fd s.clients };
      client_sockets = erase fd w.client_sockets;
    }

-- The client of a socket that was accepted, but for the vector.
unfoldable pub accept_client : ℕ → World → World
accept_client fd w = record {
  server = record w.server { clients = add_client fd w.server.clients };
  client_sockets = emplace fd fd w.client_sockets;
}

-- What a turn of the loop over the vector comes to: the entries before the index and those from it on, or the end by
-- SocketAcceptException, by a handler that gives nothing, or by an exception that nothing catches.
pub data Turned : Type 0 where
  onward : List PollFd → List PollFd → World → Turned
  not_accepted : Turned
  not_served : Turned
  not_caught : Turned

-- A client is accepted, or SocketAcceptException leaves the loop.
unfoldable pub after_accept : Option ℕ → PollFd → List PollFd → List PollFd → World → Turned
unfolding accept_client client_poll_fd
after_accept none p before rest w = not_accepted
after_accept (some fd) p before rest w =
    onward (before ++ record p { revents = no_events } ∷ []) (rest ++ client_poll_fd fd ∷ [])
      (accept_client fd w)

-- The turn of the listening descriptor.
unfoldable pub listened : Served → PollFd → List PollFd → List PollFd → World → Turned
unfolding polled_fds after_accept
listened served p before rest w = elim p.revents.pollin [
  | true ↦ after_accept (served.accepted (polled_fds (before ++ p ∷ rest))) p before rest w
  | false ↦ onward (before ++ record p { revents = no_events } ∷ []) rest w
]

unfoldable pub after_service : Kept → PollFd → List PollFd → List PollFd → World → Turned
unfolding refresh_client_poll_interest remove_client_of
after_service (kept s) p before rest w =
    onward (before ++ refresh_client_poll_interest s.clients p ∷ []) rest (record w { server = s })
after_service (dropped s) p before rest w =
    onward before rest (remove_client_of p.fd (record w { server = s }))
after_service unserved p before rest w = not_served
after_service uncaught p before rest w = not_caught

-- One turn, at the entry of the index.
unfoldable pub turn_at : Env → ℕ → Served → PollFd → List PollFd → List PollFd → World → Turned
unfolding listened after_service should_keep_client_connected
turn_at env listen_fd served p before rest w = elim (any_event p.revents) [
  | false ↦ onward (before ++ p ∷ []) rest w
  | true ↦ elim (p.fd == listen_fd) [
    | true ↦ listened served p before rest w
    | false ↦
        after_service (should_keep_client_connected env served p.revents p.fd w.server) p before
          rest w
  ]
]

pub data Round : Type 0 where
  served_all : List PollFd → World → Round
  accept_failed : Round
  service_failed : Round
  exception_left : Round
  no_fuel : Round

-- The loop over the vector, on fuel, from an index on; what the system gives is counted by the turns.
unfoldable pub poll_round :
    ℕ → Env → ℕ → (ℕ → Served) → ℕ → List PollFd → List PollFd → World → Round
unfolding turn_at
poll_round zero env listen_fd served n before rest w = no_fuel
poll_round (suc fuel) env listen_fd served n before [] w = served_all before w
poll_round (suc fuel) env listen_fd served n before (p ∷ rest) w =
    elim (turn_at env listen_fd (served n) p before rest w) [
      | onward before' rest' w' ↦ poll_round fuel env listen_fd served (n + 1) before' rest' w'
      | not_accepted ↦ accept_failed
      | not_served ↦ service_failed
      | not_caught ↦ exception_left
    ]
