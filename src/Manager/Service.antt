-- ===== src/Manager/Service.antt =====
-- server/core/server_manager/server_manager.cpp: the service of one client whose events are ready
-- (shouldKeepClientConnected). What the system gives is a parameter.
pub mod Fine
use teams_mirror.Prelude.{
  List, ℕ, suc, Bool, true, false, not, ◌||◌, Option, none, some, if◌then◌else◌, length, nat_eq,
}
use teams_mirror.Bytes.{Bytes}
use teams_mirror.Clients.{ClientManager, has_pending_write, get_incoming_buffer}
use teams_mirror.Server.{Env, Server}
use teams_mirror.Network.{
  Tried, Events, Calls, returned, failed, escaped, read_client_data, flush_client_data,
}
use teams_mirror.Dispatcher.{
  Processed, finished, unanswered, out_of_fuel, process_client_incoming_packets,
}

abbrev pub no_events : Events
no_events = record {
  pollin = false;
  pollout = false;
  pollerr = false;
  pollhup = false;
  pollnval = false;
}

abbrev pub only_pollin : Events
only_pollin = record no_events { pollin = true }

abbrev pub any_event : Events → Bool
any_event e = e.pollin || e.pollout || e.pollerr || e.pollhup || e.pollnval

-- struct pollfd
pub record PollFd : Type 0 where
  pub fd : ℕ
  pub events : Events
  pub revents : Events

-- What the system gives while one entry of the vector is served; for an accepted connection, a descriptor beside
-- those that are polled.
pub record Served : Type 0 where
  pub reading : Calls Bytes
  pub writing : Calls ℕ
  pub accepted : List ℕ → Option ℕ

-- The exceptions that the two handlers of events catch; nothing where another one leaves them.
unfoldable pub catch : ClientManager → Tried (Bool × ClientManager) → Option (Bool × ClientManager)
catch m (returned result) = some result
catch m failed = some (false, m)
catch m escaped = none

unfoldable pub handle_readable_event :
    Calls Bytes → ℕ → ClientManager → Option (Bool × ClientManager)
unfolding read_client_data catch
handle_readable_event calls fd m = catch m (read_client_data calls fd m)

unfoldable pub handle_writable_event : Calls ℕ → ℕ → ClientManager → Option (Bool × ClientManager)
unfolding flush_client_data catch
handle_writable_event calls fd m =
    if not (has_pending_write fd m) then some (true, m) else catch m (flush_client_data calls fd m)

-- What serving a client comes to: it stays connected or not; a handler gave nothing; an exception leaves the loop.
pub data Kept : Type 0 where
  kept : Server → Kept
  dropped : Server → Kept
  unserved : Kept
  uncaught : Kept

unfoldable pub after_packets : Processed → Kept
after_packets (finished s) = kept s
after_packets unanswered = unserved
after_packets out_of_fuel = unserved

-- The call of processClientIncomingPackets, with fuel for all packets that the buffer can hold.
unfoldable pub process_packets : Env → ℕ → Server → Kept
unfolding after_packets
process_packets env fd s =
    after_packets
      (process_client_incoming_packets (suc (length (get_incoming_buffer fd s.clients))) env fd s)

-- The server with its clients behind a call that tells whether the connection is still open.
unfoldable pub with_clients : Server → (Server → Kept) → Option (Bool × ClientManager) → Kept
with_clients s next none = uncaught
with_clients s next (some (false, m)) = dropped (record s { clients = m })
with_clients s next (some (true, m)) = next (record s { clients = m })

-- The branch for POLLIN of shouldKeepClientConnected.
unfoldable pub serve_readable : Env → Calls Bytes → ℕ → Server → Kept
unfolding handle_readable_event process_packets with_clients
serve_readable env calls fd s =
    with_clients s (process_packets env fd) (handle_readable_event calls fd s.clients)

-- The branch for POLLOUT.
unfoldable pub serve_writable : Calls ℕ → ℕ → Server → Kept
unfolding handle_writable_event with_clients
serve_writable calls fd s = with_clients s kept (handle_writable_event calls fd s.clients)

unfoldable pub keep_readable : Env → Served → Events → ℕ → Server → Kept
unfolding serve_readable
keep_readable env served e fd s = elim e.pollin [
  | true ↦ serve_readable env served.reading fd s
  | false ↦ kept s
]

-- POLLOUT, if the client was kept so far.
unfoldable pub keep_writable : Served → Events → ℕ → Kept → Kept
unfolding serve_writable
keep_writable served e fd (kept s) = elim e.pollout [
  | true ↦ serve_writable served.writing fd s
  | false ↦ kept s
]
keep_writable served e fd (dropped s) = dropped s
keep_writable served e fd unserved = unserved
keep_writable served e fd uncaught = uncaught

unfoldable pub should_keep_client_connected : Env → Served → Events → ℕ → Server → Kept
unfolding keep_readable keep_writable
should_keep_client_connected env served e fd s = elim (e.pollerr || e.pollhup || e.pollnval) [
  | true ↦ dropped s
  | false ↦ keep_writable served e fd (keep_readable env served e fd s)
]
