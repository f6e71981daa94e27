-- ===== src/Commands/Login.antt =====
-- server/commands/login_command.cpp
pub mod Outcome
use teams_mirror.Prelude.{
  ℕ, ◌+◌, ◌==◌, Bool, true, false, not, Option, none, some, List, [], ◌∷◌, ◌++◌, if◌then◌else◌,
  is_empty, update_if, nat_eq, bytes_eq,
}
use teams_mirror.Bytes.{Bytes, extract_fixed_string}
use teams_mirror.Map.{Map, contains, assign, emplace, adjust}
use teams_mirror.Protocol.{rpl_ok, err_bad_request, err_already_exist, evt_logged_in}
use teams_mirror.Protocol.Requests.{size_req_login, decode_req_login}
use teams_mirror.Server.{
  Env, Server, Request, LogEvent, user_created, user_logged_in, log, queue_status, queue_each, keys,
}
use teams_mirror.Server.Uuid.{generate_unique}
use teams_mirror.Models.User.{User, add_logged_in}
use teams_mirror.Models.User
use teams_mirror.Commands.Lookup.{
  user_has_name, user_has_uuid, find_user_by_name, build_user_connection_event_packet,
}
use teams_mirror.Prelude.{any_of}

-- `map[uuid].push_back(fd)`: a missing key is given an empty vector first.
unfoldable pub push_session : Bytes → ℕ → Map Bytes (List ℕ) → Map Bytes (List ℕ)
push_session uuid fd m = adjust uuid (λ fds. fds ++ fd ∷ []) (emplace uuid [] m)

unfoldable pub register_session : Request → User → Server → Server
unfolding push_session
register_session r user s = record s {
  authenticated_users_by_fd = assign r.client_fd (User.get_uuid user) s.authenticated_users_by_fd;
  authenticated_users_by_uuid =
      push_session (User.get_uuid user) r.client_fd s.authenticated_users_by_uuid;
}

unfoldable pub complete_login : Request → User → Server → Server
unfolding register_session
complete_login r user s =
    let registered = register_session r user s in
    let answered = queue_status r rpl_ok (log (user_logged_in (User.get_uuid user)) registered) in
    queue_each (keys answered.authenticated_users_by_fd)
      (build_user_connection_event_packet evt_logged_in (User.get_uuid user) (User.get_name user))
      answered

unfoldable pub create_user : Bytes → Bytes → ℕ → Server → Server
create_user uuid user_name draws s =
    let user = User.make uuid user_name true in
    log (user_created (User.get_uuid user) (User.get_name user))
      (record s { users = s.users ++ user ∷ []; draws = draws })

unfoldable pub login_as : Env → Request → Bytes → Server → Option Server
unfolding create_user
login_as env r user_name s = elim (find_user_by_name user_name s.users) [
  | none ↦
      elim (generate_unique env.attempts (λ c. any_of (user_has_uuid c) s.users) env.draw s.draws) [
        | none ↦ none
        | some (uuid, draws) ↦
            some (
              complete_login r (User.make uuid user_name true) (create_user uuid user_name draws s))
      ]
  | some user ↦ some (
      complete_login r user
        (record s { users = update_if (user_has_name user_name) add_logged_in s.users }))
]

unfoldable pub handle_login_command : Env → Request → Server → Option Server
unfolding login_as decode_req_login extract_fixed_string
handle_login_command env r s =
    if not (r.payload_size == size_req_login)
    then some (queue_status r err_bad_request s)
    else if contains r.client_fd s.authenticated_users_by_fd
    then some (queue_status r err_already_exist s)
    else elim (extract_fixed_string (decode_req_login r.payload_data).user_name) [
      | none ↦ some (queue_status r err_bad_request s)
      | some user_name ↦
          if is_empty user_name
          then some (queue_status r err_bad_request s)
          else login_as env r user_name s
    ]
