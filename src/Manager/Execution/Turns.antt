-- ===== src/Manager/Execution/Turns.antt =====
-- What a turn of the loop over the vector (server/core/server_manager/server_manager.cpp) comes to in each of its cases.
use teams_mirror.Prelude.{
  ℕ, ◌==◌, ◌≡◌, refl, ◌∙◌, ap, Bool, true, false, some, List, [], ◌∷◌, ◌++◌, nat_eq,
}
use teams_mirror.Clients.{add_client, remove_client}
use teams_mirror.Map.{emplace, erase}
use teams_mirror.Commands.Logout.{handle_client_disconnection}
use teams_mirror.Server.{Env, Server}
use teams_mirror.Manager.Service.{
  no_events, only_pollin, any_event, PollFd, Served, kept, dropped, should_keep_client_connected,
}
use teams_mirror.Manager.Rounds.{
  World, polled_fds, Turned, onward, turn_at, refresh_client_poll_interest, remove_client_of,
  after_service, listened, after_accept, accept_client, client_poll_fd,
}
use teams_mirror.Manager.Execution.Rules.{cleared, asked_of}

module _ (env : Env) (listen_fd : ℕ) (served : Served) (before : List PollFd) (p : PollFd)
    (rest : List PollFd) (w : World) where
  abbrev pub turn : Turned
  turn = turn_at env listen_fd served p before rest w

  pub turn_quiet : any_event p.revents ≡ false → turn ≡ onward (before ++ p ∷ []) rest w
  unfolding turn_at
  turn_quiet e = rw (e, turn_at) refl

  listened_accept :
      p.revents.pollin ≡ true
      → listened served p before rest w
        ≡ after_accept (served.accepted (polled_fds (before ++ p ∷ rest))) p before rest w
  unfolding listened
  listened_accept e =
      ap
        (λ (b : Bool). elim b as (λ x. Turned) [
          | true ↦ after_accept (served.accepted (polled_fds (before ++ p ∷ rest))) p before rest w
          | false ↦ onward (before ++ cleared p ∷ []) rest w
        ])
        e

  module _ (some_event : any_event p.revents ≡ true) where
    module _ (here : (p.fd == listen_fd) ≡ true) where
      pub turn_idle : p.revents.pollin ≡ false → turn ≡ onward (before ++ cleared p ∷ []) rest w
      unfolding turn_at listened
      turn_idle e = rw (some_event, here, e, turn_at, listened) refl

      pub turn_accept :
          p.revents.pollin ≡ true
          → turn ≡ after_accept (served.accepted (polled_fds (before ++ p ∷ rest))) p before rest w
      unfolding turn_at
      turn_accept e = rw (some_event, here, turn_at) (listened_accept e)

    pub turn_serve :
        (p.fd == listen_fd) ≡ false
        → turn
          ≡ after_service
              (should_keep_client_connected env served p.revents p.fd w.server)
              p
              before
              rest
              w
    unfolding turn_at
    turn_serve other = rw (some_event, other, turn_at) refl

    pub turn_connected :
        (fd : ℕ)
        → (p.fd == listen_fd) ≡ true
        → p.revents.pollin ≡ true
        → served.accepted (polled_fds (before ++ p ∷ rest)) ≡ some fd
        → turn
          ≡ onward
              (before ++ cleared p ∷ [])
              (rest ++ record { fd = fd; events = only_pollin; revents = no_events } ∷ [])
              (record {
                server = record w.server { clients = add_client fd w.server.clients };
                client_sockets = emplace fd fd w.client_sockets;
              })
    unfolding after_accept accept_client client_poll_fd
    turn_connected fd here asks e =
        turn_accept here asks ∙ ap (λ x. after_accept x p before rest w) e

    pub turn_kept :
        (s : Server)
        → (p.fd == listen_fd) ≡ false
        → should_keep_client_connected env served p.revents p.fd w.server ≡ kept s
        → turn
          ≡ onward
              (before
                ++ record { fd = p.fd; events = asked_of s.clients p.fd; revents = no_events } ∷ [])
              rest
              (record { server = s; client_sockets = w.client_sockets })
    unfolding after_service refresh_client_poll_interest
    turn_kept s other e = turn_serve other ∙ ap (λ x. after_service x p before rest w) e

    pub turn_lost :
        (s : Server)
        → (p.fd == listen_fd) ≡ false
        → should_keep_client_connected env served p.revents p.fd w.server ≡ dropped s
        → turn
          ≡ onward before rest (record {
            server = record (handle_client_disconnection p.fd s) {
              clients = remove_client p.fd (handle_client_disconnection p.fd s).clients;
            };
            client_sockets = erase p.fd w.client_sockets;
          })
    unfolding after_service remove_client_of
    turn_lost s other e = turn_serve other ∙ ap (λ x. after_service x p before rest w) e
