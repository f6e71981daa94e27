-- ===== src/Manager/Execution/Rules.antt =====
-- The rules of a run of runPollLoop (server/core/server_manager/server_manager.cpp).
use teams_mirror.Prelude.{
  ℕ, ◌+◌, ◌==◌, ◌≡◌, true, false, some, List, [], ◌∷◌, ◌++◌, map, if◌then◌else◌, nat_eq,
}
use teams_mirror.Map.{emplace, erase}
use teams_mirror.Clients.{ClientManager, has_pending_write, add_client, remove_client}
use teams_mirror.Network.{Events}
use teams_mirror.Server.{Env, Server}
use teams_mirror.Commands.Logout.{handle_client_disconnection}
use teams_mirror.Manager.Service.{
  no_events, only_pollin, any_event, PollFd, Served, kept, dropped, should_keep_client_connected,
}
use teams_mirror.Manager.Rounds.{World, polled_fds}
use teams_mirror.Manager.Loop.{Wake, nothing_ready, stopped_there, ready}

-- What is asked of a client's descriptor: to read, and to write where something is queued.
abbrev pub asked_of : ClientManager → ℕ → Events
asked_of m fd =
    if has_pending_write fd m then record only_pollin { pollout = true } else only_pollin

-- An entry when ::poll comes back with the events of the descriptors: those of the listening one are asked for
-- reading alone.
abbrev pub polled : (ℕ → Events) → ClientManager → ℕ → PollFd → PollFd
polled reported m listen_fd p = record {
  fd = p.fd;
  events = if p.fd == listen_fd then only_pollin else asked_of m p.fd;
  revents = reported p.fd;
}

abbrev pub cleared : PollFd → PollFd
cleared p = record { fd = p.fd; events = p.events; revents = no_events }

module _ (env : Env) (listen_fd : ℕ) where
  -- A round from the entries that were served and those that are left, to the vector and the world behind it; the
  -- number counts what the system is asked for.
  pub data RoundRun (served : ℕ → Served)
      : ℕ → List PollFd → List PollFd → World → List PollFd → World → Type 0 where
    round_over : (n : ℕ) (ps : List PollFd) (w : World) → RoundRun served n ps [] w ps w
    no_event :
        (n : ℕ) (before : List PollFd) (p : PollFd) (rest : List PollFd) (w : World)
        (ps : List PollFd) (w' : World)
        → any_event p.revents ≡ false
        → RoundRun served (n + 1) (before ++ p ∷ []) rest w ps w'
        → RoundRun served n before (p ∷ rest) w ps w'
    no_connection :
        (n : ℕ) (before : List PollFd) (p : PollFd) (rest : List PollFd) (w : World)
        (ps : List PollFd) (w' : World)
        → any_event p.revents ≡ true
        → (p.fd == listen_fd) ≡ true
        → p.revents.pollin ≡ false
        → RoundRun served (n + 1) (before ++ cleared p ∷ []) rest w ps w'
        → RoundRun served n before (p ∷ rest) w ps w'
    connected :
        (n : ℕ) (before : List PollFd) (p : PollFd) (rest : List PollFd) (w : World)
        (ps : List PollFd) (w' : World) (fd : ℕ)
        → any_event p.revents ≡ true
        → (p.fd == listen_fd) ≡ true
        → p.revents.pollin ≡ true
        → (served n).accepted (polled_fds (before ++ p ∷ rest)) ≡ some fd
        → RoundRun served
            (n + 1)
            (before ++ cleared p ∷ [])
            (rest ++ record { fd = fd; events = only_pollin; revents = no_events } ∷ [])
            (record {
              server = record w.server { clients = add_client fd w.server.clients };
              client_sockets = emplace fd fd w.client_sockets;
            })
            ps
            w'
        → RoundRun served n before (p ∷ rest) w ps w'
    client_kept :
        (n : ℕ) (before : List PollFd) (p : PollFd) (rest : List PollFd) (w : World)
        (ps : List PollFd) (w' : World) (s : Server)
        → any_event p.revents ≡ true
        → (p.fd == listen_fd) ≡ false
        → should_keep_client_connected env (served n) p.revents p.fd w.server ≡ kept s
        → RoundRun served
            (n + 1)
            (before
              ++ record { fd = p.fd; events = asked_of s.clients p.fd; revents = no_events } ∷ [])
            rest
            (record { server = s; client_sockets = w.client_sockets })
            ps
            w'
        → RoundRun served n before (p ∷ rest) w ps w'
    client_lost :
        (n : ℕ) (before : List PollFd) (p : PollFd) (rest : List PollFd) (w : World)
        (ps : List PollFd) (w' : World) (s : Server)
        → any_event p.revents ≡ true
        → (p.fd == listen_fd) ≡ false
        → should_keep_client_connected env (served n) p.revents p.fd w.server ≡ dropped s
        → RoundRun served
            (n + 1)
            before
            rest
            (record {
              server = record (handle_client_disconnection p.fd s) {
                clients = remove_client p.fd (handle_client_disconnection p.fd s).clients;
              };
              client_sockets = erase p.fd w.client_sockets;
            })
            ps
            w'
        → RoundRun served n before (p ∷ rest) w ps w'

  -- The loop over the wakes, up to the signal.
  pub data LoopRun : List Wake → List PollFd → World → World → Type 0 where
    signal_came : (ps : List PollFd) (w : World) → LoopRun [] ps w w
    signal_there :
        (wakes : List Wake) (ps : List PollFd) (w : World) → LoopRun (stopped_there ∷ wakes) ps w w
    nothing_came :
        (wakes : List Wake) (ps : List PollFd) (w w' : World)
        → LoopRun wakes (map (polled (λ fd. no_events) w.server.clients listen_fd) ps) w w'
        → LoopRun (nothing_ready ∷ wakes) ps w w'
    round_done :
        (reported : ℕ → Events) (served : ℕ → Served) (wakes : List Wake) (ps qs : List PollFd)
        (w v w' : World)
        → RoundRun served 0 [] (map (polled reported w.server.clients listen_fd) ps) w qs v
        → LoopRun wakes qs v w'
        → LoopRun (ready reported served ∷ wakes) ps w w'
