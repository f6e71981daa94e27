-- ===== src/Manager/Losses.antt =====
-- A lost connection in runPollLoop (server/core/server_manager/server_manager.cpp).
use teams_mirror.Prelude.{
  some, ◌⊎◌, inl, inr, Bool-cases, either_way, ℕ, ◌≡◌, refl, ◌∙◌, sym, ap, subst, Bool, true, false,
  ◌||◌, ◌==◌, List, [], ◌∷◌, ◌++◌, arith, nat_eq,
}
use teams_mirror.Map.{contains}
use teams_mirror.Clients.{has_client, remove_client}
use teams_mirror.Clients.Descriptors.{
  descriptors, among, Distinct, contains-erase, among-remove_first,
}
use teams_mirror.Bytes.{Bytes}
use teams_mirror.Network.{
  Events, Calls, escaped, recv_bytes, socket_read, system_call, closed_if_empty, read_client_data,
  take_received,
}
use teams_mirror.Server.{Env, Server}
use teams_mirror.Commands.Logout.{handle_client_disconnection}
use teams_mirror.Manager.Service.{
  PollFd, Served, any_event, dropped, uncaught, keep_readable, keep_writable, serve_readable,
  with_clients, handle_readable_event, catch, should_keep_client_connected,
}
use teams_mirror.Manager.Rounds.{
  World, polled_fds, remove_client_of, onward, not_caught, after_service, turn_at,
}
use teams_mirror.Manager.Polled.{Polled, polled_fds-erase, disconnection-SameClients}

-- The events that end a connection.
abbrev pub is_lost : Events → Bool
is_lost e = e.pollerr || e.pollhup || e.pollnval

lost_any : (e : Events) → is_lost e ≡ true → any_event e ≡ true
lost_any e h = ground (arith, h)

service_lost :
    (env : Env) (served : Served) (e : Events) (fd : ℕ) (s : Server)
    → is_lost e ≡ true
    → should_keep_client_connected env served e fd s ≡ dropped s
unfolding should_keep_client_connected
service_lost env served e fd s lost =
    either_way (λ k. k ≡ dropped s) (is_lost e) (dropped s) _ (λ _. refl)
      (λ kept. absurd (ground (arith, lost, kept)))

turn_at_lost :
    (env : Env) (listen_fd : ℕ) (served : Served) (p : PollFd) (before rest : List PollFd)
    (w : World)
    → is_lost p.revents ≡ true
    → (p.fd == listen_fd) ≡ false
    → turn_at env listen_fd served p before rest w ≡ onward before rest (remove_client_of p.fd w)
unfolding turn_at
turn_at_lost env listen_fd served p before rest w lost other =
    let next = onward before rest (remove_client_of p.fd w) in
    either_way (λ t. t ≡ next) (any_event p.revents) _ _
      (λ _.
        either_way (λ t. t ≡ next) (p.fd == listen_fd) _ _
          (λ same. absurd (ground (arith, same, other)))
          (λ _.
            ap (λ k. after_service k p before rest w)
              (service_lost env served p.revents p.fd w.server lost)
            ∙ unfold after_service in refl))
      (λ idle. absurd (ground (arith, idle, lost_any p.revents lost)))

-- Where a client's events report an error, a hang-up or a descriptor that is not open, the loop goes on at the same index without
-- the entry, and neither the clients, the sockets nor the vector have the descriptor any more. The vector, the clients and
-- the sockets were together before, and the descriptor is not the listening one.
pub turn_at-lost :
    (env : Env) (listen_fd : ℕ) (served : Served) (p : PollFd) (before rest : List PollFd)
    (w : World)
    → Polled listen_fd (before ++ p ∷ rest) w
    → is_lost p.revents ≡ true
    → (p.fd == listen_fd) ≡ false
    → (w' : World) × (turn_at env listen_fd served p before rest w ≡ onward before rest w')
      × (has_client p.fd w'.server.clients ≡ false)
      × (contains p.fd w'.client_sockets ≡ false)
      × (among p.fd (polled_fds (before ++ rest)) ≡ false)
unfolding remove_client_of remove_client has_client
turn_at-lost env listen_fd served p before rest w h lost other =
    let once : Distinct (descriptors w.server.clients) = (subst Distinct h.clients h.distinct).1 in
    (
      remove_client_of p.fd w,
      turn_at_lost env listen_fd served p before rest w lost other,
      contains-erase p.fd (handle_client_disconnection p.fd w.server).clients
          (subst Distinct (sym (disconnection-SameClients p.fd w.server)) once),
      contains-erase p.fd w.client_sockets (subst Distinct (sym h.sockets) once),
      ap (among p.fd) (sym (polled_fds-erase p before rest h.distinct))
          ∙ among-remove_first p.fd _ h.distinct,
    )

-- A connection that the client closed between the two polls: the poll of Socket::read reports an error or a hang-up, and no
-- byte is left to read.
pub record ClosedMeanwhile (calls : Calls Bytes) : Type 0 where
  pub polled_events : Events
  pub is_socket : calls.is_socket ≡ true
  pub polled : calls.polled ≡ some polled_events
  pub hung_up : (polled_events.pollerr || polled_events.pollhup) ≡ true
  pub nothing_left : (polled_events.pollin ≡ false) ⊎ (calls.result ≡ some [])

recv_bytes_closed : (calls : Calls Bytes) → ClosedMeanwhile calls → recv_bytes calls ≡ escaped
unfolding recv_bytes socket_read system_call closed_if_empty
recv_bytes_closed calls c = elim c.nothing_left [
  | inl no_input ↦ rw (c.is_socket, c.polled, c.hung_up, no_input) refl
  | inr empty ↦ elim (Bool-cases c.polled_events.pollin) [
    | inl input ↦ rw (c.is_socket, c.polled, c.hung_up, input, empty) refl
    | inr no_input ↦ rw (c.is_socket, c.polled, c.hung_up, no_input) refl
  ]
]

service_closed :
    (env : Env) (served : Served) (e : Events) (fd : ℕ) (s : Server)
    → ClosedMeanwhile served.reading
    → is_lost e ≡ false
    → e.pollin ≡ true
    → should_keep_client_connected env served e fd s ≡ uncaught
unfolding should_keep_client_connected keep_readable keep_writable serve_readable with_clients
    handle_readable_event catch read_client_data take_received
service_closed env served e fd s c open_left input =
    either_way (λ k. k ≡ uncaught) (is_lost e) _ _
      (λ lost. absurd (ground (arith, lost, open_left)))
      (λ _. rw (input, recv_bytes_closed served.reading c) refl)

-- Where a client is readable, but has closed its connection by the time that Socket::read polls it, so that there is no byte left to
-- read, the exception that Socket::read throws is not caught: it leaves the loop.
pub turn_at-closed :
    (env : Env) (listen_fd : ℕ) (served : Served) (p : PollFd) (before rest : List PollFd)
    (w : World)
    → (p.fd == listen_fd) ≡ false
    → is_lost p.revents ≡ false
    → p.revents.pollin ≡ true
    → ClosedMeanwhile served.reading
    → turn_at env listen_fd served p before rest w ≡ not_caught
unfolding turn_at
turn_at-closed env listen_fd served p before rest w other open_left input c =
    either_way (λ t. t ≡ not_caught) (any_event p.revents) _ _
      (λ _.
        either_way (λ t. t ≡ not_caught) (p.fd == listen_fd) _ _
          (λ same. absurd (ground (arith, same, other)))
          (λ _.
            ap (λ k. after_service k p before rest w)
              (service_closed env served p.revents p.fd w.server c open_left input)
            ∙ unfold after_service in refl))
      (λ idle. absurd (ground (arith, idle, input)))
