-- ===== src/Manager/Loop.antt =====
-- server/core/server_manager/server_manager.cpp: runPollLoop, from the loading of the saved state to its saving.
use teams_mirror.Prelude.{ℕ, ◌+◌, Bool, Option, none, some, List, [], ◌∷◌, ◌++◌, length, nat_eq}
use teams_mirror.Bytes.{Bytes}
use teams_mirror.Map.{Map}
use teams_mirror.Server.{Env}
use teams_mirror.Network.{Events}
use teams_mirror.Manager.Service.{no_events, only_pollin, PollFd, Served}
use teams_mirror.Manager.Rounds.{
  World, Round, served_all, accept_failed, service_failed, exception_left, no_fuel, poll_round,
  refresh_all_poll_interests,
}
use teams_mirror.Server.{LogEvent, user_loaded, user_logged_out}
use teams_mirror.Models.User.{User, reset_logged_in}
use teams_mirror.Models.User
use teams_mirror.Models.Team.{Team}
use teams_mirror.Models.Message.{Message}
use teams_mirror.Database.Disk.{Disk, Access}
use teams_mirror.Database.Save.{save}
use teams_mirror.Database.Load.{load}

-- What a turn of the loop over _isRunning meets: ::poll gives 0 or is interrupted by the signal that stops the server; the
-- signal comes before the events are looked at; ::poll fails; or there are events.
pub data Wake : Type 0 where
  nothing_ready : Wake
  stopped_there : Wake
  poll_failed : Wake
  ready : (ℕ → Events) → (ℕ → Served) → Wake

-- The events that ::poll reports.
unfoldable pub report : (ℕ → Events) → List PollFd → List PollFd
report f [] = []
report f (p ∷ ps) = record p { revents = f p.fd } ∷ report f ps

-- What the poll loop ends with: the signal, or what ended a round or ::poll.
pub data Ended : Type 0 where
  signalled : World → Ended
  excepted : Ended
  hanging : Ended

-- One round is given fuel for each entry, and for each accepted client.
unfoldable pub full_round : Env → ℕ → (ℕ → Served) → List PollFd → World → Round
unfolding poll_round
full_round env listen_fd served ps w =
    poll_round (length ps + length ps + 1) env listen_fd served 0 [] ps w

-- The loop over _isRunning, which becomes false behind the last turn of the list.
unfoldable pub poll_loop : Env → ℕ → List Wake → List PollFd → World → Ended
unfolding refresh_all_poll_interests full_round report
poll_loop env listen_fd [] ps w = signalled w
poll_loop env listen_fd (nothing_ready ∷ wakes) ps w =
    poll_loop env listen_fd wakes (refresh_all_poll_interests w.server.clients listen_fd ps) w
poll_loop env listen_fd (stopped_there ∷ wakes) ps w = signalled w
poll_loop env listen_fd (poll_failed ∷ wakes) ps w = excepted
poll_loop env listen_fd (ready f served ∷ wakes) ps w =
    elim (full_round env listen_fd served
      (report f (refresh_all_poll_interests w.server.clients listen_fd ps)) w) [
        | served_all ps' w' ↦ poll_loop env listen_fd wakes ps' w'
        | accept_failed ↦ excepted
        | service_failed ↦ hanging
        | exception_left ↦ excepted
        | no_fuel ↦ hanging
      ]

-- The loop over the users that were loaded.
unfoldable pub reset_each : List User → List User
unfolding reset_logged_in
reset_each [] = []
reset_each (user ∷ users) = reset_logged_in user ∷ reset_each users

unfoldable pub loaded_events : List User → List LogEvent
loaded_events [] = []
loaded_events (user ∷ users) =
    user_loaded (User.get_uuid user) (User.get_name user) ∷ loaded_events users

-- logoutUsers
unfoldable pub logout_events : Map ℕ Bytes → List LogEvent
logout_events [] = []
logout_events ((fd, uuid) ∷ m) = user_logged_out uuid ∷ logout_events m

-- The state before the first round.
unfoldable pub started : List User → List Team → List Message → World
unfolding reset_each loaded_events
started users teams messages = record {
  server = record {
    clients = [];
    users = reset_each users;
    teams = teams;
    messages = messages;
    authenticated_users_by_fd = [];
    authenticated_users_by_uuid = [];
    logs = loaded_events users;
    draws = 0;
    clock_reads = 0;
  };
  client_sockets = [];
}

-- What runPollLoop ends with: the state is saved, as far as it can be; or it is not, after an exception, or while a handler
-- gives nothing.
pub data Run : Type 0 where
  shut : Bool → Disk → List LogEvent → Run
  thrown : Run
  stuck : Run

unfoldable pub shut_down : Access → ℕ → Disk → Ended → Run
unfolding logout_events save
shut_down access d disk (signalled w) =
    let saved = save access d w.server.users w.server.teams w.server.messages disk in
    shut saved.0 saved.1 (w.server.logs ++ logout_events w.server.authenticated_users_by_fd)
shut_down access d disk excepted = thrown
shut_down access d disk hanging = stuck

-- runPollLoop of a manager that holds no data yet; nothing for the listening descriptor where there is no socket.
unfoldable pub run_poll_loop : Env → Access → ℕ → Disk → Option ℕ → List Wake → Run
unfolding poll_loop load started shut_down
run_poll_loop env access d disk none wakes = thrown
run_poll_loop env access d disk (some listen_fd) wakes =
    let (was_loaded, users, teams, messages) = load d disk [] [] [] in
    shut_down access d disk (
      poll_loop env listen_fd wakes
        (record { fd = listen_fd; events = only_pollin; revents = no_events } ∷ [])
        (started users teams messages))
