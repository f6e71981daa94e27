-- ===== src/Commands/Logout.antt =====
-- server/commands/logout_command.cpp: the logout request, and the loss of a connection.
use teams_mirror.Prelude.{
  ℕ, ◌==◌, not, Option, none, some, List, [], if◌then◌else◌, update_if, remove_if, nat_eq, bytes_eq,
}
use teams_mirror.Bytes.{Bytes}
use teams_mirror.Map.{Map, find, erase, emplace, adjust}
use teams_mirror.Protocol.{rpl_ok, err_bad_request, err_unauthorized, evt_logged_out}
use teams_mirror.Server.{
  Server, Request, user_logged_out, log, queue_packet, queue_status, queue_each, keys,
}
use teams_mirror.Models.User.{User, remove_logged_in}
use teams_mirror.Models.User
use teams_mirror.Commands.Lookup.{
  user_has_uuid, find_user_by_uuid, build_user_connection_event_packet,
}

abbrev logged_out_packet : User → Bytes
logged_out_packet user =
    build_user_connection_event_packet evt_logged_out (User.get_uuid user) (User.get_name user)

-- broadcastLoggedOutEvent; -1, the default of the excluded descriptor, excludes none.
unfoldable pub broadcast_logged_out_event : Map ℕ Bytes → User → Option ℕ → Server → Server
broadcast_logged_out_event by_fd user none s = queue_each (keys by_fd) (logged_out_packet user) s
broadcast_logged_out_event by_fd user (some excluded) s =
    queue_each (remove_if (λ fd. fd == excluded) (keys by_fd)) (logged_out_packet user) s

-- `map[uuid]`, and then the descriptor is erased from the vector.
unfoldable pub drop_session : Bytes → ℕ → Map Bytes (List ℕ) → Map Bytes (List ℕ)
drop_session uuid fd m = adjust uuid (remove_if (λ other. other == fd)) (emplace uuid [] m)

unfoldable pub unregister_session : ℕ → Bytes → Server → Server
unfolding drop_session
unregister_session fd uuid s = record s {
  authenticated_users_by_fd = erase fd s.authenticated_users_by_fd;
  authenticated_users_by_uuid = drop_session uuid fd s.authenticated_users_by_uuid;
}

abbrev count_out : Bytes → User → Server → Server
count_out uuid user s =
    log (user_logged_out (User.get_uuid user))
      (record s { users = update_if (user_has_uuid uuid) remove_logged_in s.users })

unfoldable pub handle_logout_command : Request → Server → Server
unfolding unregister_session broadcast_logged_out_event
handle_logout_command r s =
    if not (r.payload_size == 0)
    then queue_status r err_bad_request s
    else elim (find r.client_fd s.authenticated_users_by_fd) [
      | none ↦ queue_status r err_unauthorized s
      | some uuid ↦
          let unregistered = unregister_session r.client_fd uuid s in
          elim (find_user_by_uuid uuid s.users) [
            | none ↦ queue_status r err_unauthorized unregistered
            | some user ↦
                let counted = count_out uuid user unregistered in
                let answered =
                  queue_packet r.client_fd (logged_out_packet user)
                    (queue_status r rpl_ok counted) in
                broadcast_logged_out_event answered.authenticated_users_by_fd user none answered
          ]
    ]

-- The whole entry of the user is erased from the map by identifier, after its vector was reduced.
unfoldable pub handle_client_disconnection : ℕ → Server → Server
unfolding unregister_session broadcast_logged_out_event
handle_client_disconnection fd s = elim (find fd s.authenticated_users_by_fd) [
  | none ↦ s
  | some uuid ↦
      let unregistered = unregister_session fd uuid s in
      let forgotten = record unregistered {
        authenticated_users_by_uuid = erase uuid unregistered.authenticated_users_by_uuid;
      } in
      elim (find_user_by_uuid uuid s.users) [
        | none ↦ forgotten
        | some user ↦
            let counted = count_out uuid user forgotten in
            broadcast_logged_out_event counted.authenticated_users_by_fd user (some fd) counted
      ]
]
