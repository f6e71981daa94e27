-- ===== src/Examples/Poll.antt =====
-- The poll loop, the network and the arguments on concrete data.
use teams_mirror.Prelude.{
  nat_eq, ℕ, ◌<◌, ◌≤◌, ◌≡◌, ◌≢◌, ◌↔◌, refl, true, false, none, some, List, [], ◌∷◌, ◌++◌, arith,
  same, any_of, inl, if◌then◌else◌,
}
use teams_mirror.Bytes.{Bytes, view}
use teams_mirror.Map.{find, contains, adjust}
use teams_mirror.Clients.{
  new_client, has_client, get_queued_data, has_pending_write, consume_queued_data, ClientManager,
}
use teams_mirror.Clients.Descriptors.{descriptors, among}
use teams_mirror.Network.{
  Events, Calls, send_bytes, socket_write, system_call, flush_client_data, drop_sent,
}
use teams_mirror.Network.Flushing.{
  Flushed, sent, SendsSome, queue-Flushed, empties_queue, no_call, one_call,
}
use teams_mirror.Sessions.{count_sessions, SessionsConsistent}
use teams_mirror.Manager.Service.{PollFd, Served, no_events, only_pollin}
use teams_mirror.Manager.Rounds.{World, polled_fds, onward, not_caught, turn_at, no_fuel}
use teams_mirror.Manager.Loop.{Wake, ready, signalled, poll_loop, started, full_round}
use teams_mirror.Manager.Polled.{Polled, AcceptsNew}
use teams_mirror.Manager.Reached.{Reached, start, Reached-Polled}
use teams_mirror.Manager.Execution.Rules.{LoopRun}
use teams_mirror.Manager.Execution.Exact.{poll_loop-exact}
use teams_mirror.Manager.Ending.{full_round_ends}
use teams_mirror.Manager.Losses.{ClosedMeanwhile, turn_at-lost, turn_at-closed}
use teams_mirror.Launch.{run}
use teams_mirror.Launch.Ports.{run_bounds}
use teams_mirror.Examples.World.{alice_user, bob_user, env, world}

-- A system that gives the descriptor 4, unless it is polled.
abbrev quiet : Served
quiet = record {
  reading = record {
    is_socket = true;
    polled = some (record no_events { pollhup = true });
    result = none;
  };
  writing = record {
    is_socket = true;
    polled = some (record no_events { pollout = true });
    result = some 2;
  };
  accepted = λ open_fds. if among 4 open_fds then none else some 4;
}

quiet-AcceptsNew : AcceptsNew quiet
unfolding AcceptsNew
quiet-AcceptsNew open_fds fd h = ground (arith, h)

digits : (n : ℕ) → 13 < 16
digits n = ground arith

abbrev listening : PollFd
listening = record { fd = 3; events = only_pollin; revents = no_events }

abbrev asked : PollFd
asked = record { fd = 3; events = only_pollin; revents = only_pollin }

abbrev first : World
first = started (alice_user ∷ bob_user ∷ []) [] []

first-Reached : Reached env 3 (listening ∷ []) [] first
unfolding any_of view same
first-Reached = start (alice_user ∷ bob_user ∷ []) [] [] (refl, (refl, tt))

Reached-Polled_example : Polled 3 (listening ∷ []) first
Reached-Polled_example = Reached-Polled env 3 (listening ∷ []) [] first digits first-Reached

abbrev one_wake : List Wake
one_wake = ready (λ fd. only_pollin) (λ n. quiet) ∷ []

abbrev second : World
second = record {
  server = record first.server { clients = (4, new_client) ∷ [] };
  client_sockets = (4, 4) ∷ [];
}

poll_loop-exact_example :
    (poll_loop env 3 one_wake (listening ∷ []) first ≡ signalled second)
    ↔ LoopRun env 3 one_wake (listening ∷ []) first second
poll_loop-exact_example = poll_loop-exact env 3 one_wake (listening ∷ []) first second

full_round_ends_example : full_round env 3 (λ n. quiet) (asked ∷ []) first ≢ no_fuel
full_round_ends_example = full_round_ends env 3 (λ n. quiet) (asked ∷ []) first

abbrev client_at : ℕ → Events → PollFd
client_at fd revents = record { fd = fd; events = only_pollin; revents = revents }

-- Three clients, of whom the one at 4 hung up.
abbrev three : World
three = record { server = world []; client_sockets = (4, 4) ∷ (5, 5) ∷ (6, 6) ∷ [] }

abbrev idle_clients : List PollFd
idle_clients = client_at 5 no_events ∷ client_at 6 no_events ∷ []

world-Consistent : (incoming : Bytes) → SessionsConsistent (world incoming)
unfolding count_sessions any_of view same
world-Consistent incoming = record {
  counted = (refl, (refl, tt));
  distinct = (refl, (refl, tt));
  known = (refl, (refl, tt));
}

three-Polled : (e : Events) → Polled 3 (listening ∷ client_at 4 e ∷ idle_clients) three
unfolding polled_fds descriptors among
three-Polled e = record {
  clients = refl;
  sockets = refl;
  distinct = (refl, (refl, (refl, (refl, tt))));
  sessions = world-Consistent [];
}

abbrev hung : Events
hung = record no_events { pollhup = true }

turn_at-lost_example :
    (w' : World) × (turn_at env 3 quiet (client_at 4 hung) (listening ∷ []) idle_clients three
      ≡ onward (listening ∷ []) idle_clients w')
    × (has_client 4 w'.server.clients ≡ false)
    × (contains 4 w'.client_sockets ≡ false)
    × (among 4 (polled_fds (listening ∷ idle_clients)) ≡ false)
turn_at-lost_example =
    turn_at-lost env 3 quiet (client_at 4 hung) (listening ∷ []) idle_clients three
      (three-Polled hung) refl refl

quiet-ClosedMeanwhile : ClosedMeanwhile quiet.reading
quiet-ClosedMeanwhile = record {
  polled_events = hung;
  is_socket = refl;
  polled = refl;
  hung_up = refl;
  nothing_left = inl refl;
}

turn_at-closed_example :
    turn_at env 3 quiet (client_at 4 only_pollin) (listening ∷ []) idle_clients three ≡ not_caught
turn_at-closed_example =
    turn_at-closed env 3 quiet (client_at 4 only_pollin) (listening ∷ []) idle_clients three refl
      refl refl quiet-ClosedMeanwhile

-- A client with three bytes queued, and a system that takes two at a time.
abbrev queued : ClientManager
queued = (4, record new_client { outgoing_buffer = 1 ∷ 2 ∷ 3 ∷ [] }) ∷ []

abbrev two_calls : List (Calls ℕ)
two_calls = quiet.writing ∷ quiet.writing ∷ []

two_calls-Flushed : Flushed 4 queued two_calls (1 ∷ 2 ∷ 3 ∷ []) ((4, new_client) ∷ [])
unfolding flush_client_data send_bytes socket_write system_call drop_sent sent has_pending_write
    get_queued_data find consume_queued_data adjust
two_calls-Flushed =
    one_call queued quiet.writing _ (quiet.writing ∷ []) (3 ∷ []) _ refl (
      one_call _ quiet.writing ((4, new_client) ∷ []) [] [] _ refl (no_call ((4, new_client) ∷ [])))

queue-Flushed_example :
    (1 ∷ 2 ∷ 3 ∷ []) ++ get_queued_data 4 ((4, new_client) ∷ []) ≡ get_queued_data 4 queued
queue-Flushed_example =
    queue-Flushed 4 queued two_calls (1 ∷ 2 ∷ 3 ∷ []) ((4, new_client) ∷ []) two_calls-Flushed

writing-SendsSome : SendsSome quiet.writing
unfolding SendsSome send_bytes socket_write system_call
writing-SendsSome = (1, refl)

empties_queue_example :
    (m' : ClientManager) × Flushed 4 queued
      (quiet.writing ∷ two_calls)
      (get_queued_data 4 queued)
      m'
    × (get_queued_data 4 m' ≡ [])
unfolding get_queued_data find
empties_queue_example =
    empties_queue 4 (quiet.writing ∷ two_calls) queued
      (writing-SendsSome, (writing-SendsSome, (writing-SendsSome, tt))) (omega arith)

-- The argument "8080".
abbrev port_text : Bytes
port_text = b'8' ∷ b'0' ∷ b'8' ∷ b'0' ∷ []

run_bounds_example : (arg : Bytes) × (port_text ∷ [] ≡ arg ∷ []) × (1 ≤ 8080) × (8080 ≤ 65535)
unfolding run
run_bounds_example = run_bounds (port_text ∷ []) 8080 refl
