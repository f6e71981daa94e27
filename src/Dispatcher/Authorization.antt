-- ===== src/Dispatcher/Authorization.antt =====
-- What a client that is not logged in can do.
use teams_mirror.Prelude.{ℕ, ◌≡◌, refl, ◌≢◌, ◌⊎◌, false, Option, none, some, ◌∷◌, [], nat_eq, arith}
use teams_mirror.Map.{Map, find, contains}
use teams_mirror.Protocol.{
  CommandId, cmd_login, cmd_logout, cmd_users, cmd_user_info, cmd_send, cmd_messages, cmd_subscribe,
  cmd_unsubscribe, cmd_subscribed_list, cmd_use, cmd_create, cmd_list, cmd_info, err_bad_request,
  err_unauthorized,
}
use teams_mirror.Bytes.{Bytes}
use teams_mirror.Server.{Env, Server, Request, queue_status}
use teams_mirror.Commands.Lookup.{get_authenticated_user}
use teams_mirror.Commands.Logout.{handle_logout_command}
use teams_mirror.Commands.UserQueries.{handle_users_command, handle_user_command}
use teams_mirror.Commands.Use.{handle_use_command}
use teams_mirror.Commands.Subscription.{
  handle_subscribe_command, handle_unsubscribe_command, handle_subscribed_list_command,
}
use teams_mirror.Commands.PrivateMessages.{handle_send_command, handle_messages_command}
use teams_mirror.Commands.Listing.{handle_list_command}
use teams_mirror.Commands.Info.{handle_info_command}
use teams_mirror.Commands.Create.{handle_create_command}
use teams_mirror.Dispatcher.{run_handler}

pub contains-find : (fd : ℕ) (m : Map ℕ Bytes) → find fd m ≡ none → contains fd m ≡ false
unfolding find contains
contains-find fd [] h = refl
contains-find fd ((j, v) ∷ m) h = ground (arith, contains-find fd m)

-- The answer is a status and nothing else happens.
abbrev pub IsRefused : Request → Server → Option Server → Type 0
IsRefused r s result =
    (result ≡ some (queue_status r err_unauthorized s))
    ⊎ (result ≡ some (queue_status r err_bad_request s))

module _ (env : Env) (r : Request) (s : Server)
    (out : find r.client_fd s.authenticated_users_by_fd ≡ none) where
  no_user : get_authenticated_user r s ≡ none
  unfolding get_authenticated_user
  no_user = rw out

  absent : contains r.client_fd s.authenticated_users_by_fd ≡ false
  absent = contains-find r.client_fd s.authenticated_users_by_fd out

  -- A client that is not logged in gets only a status from every command but CMD_LOGIN: ERR_UNAUTHORIZED, or
  -- ERR_BAD_REQUEST; nothing else changes in the server.
  pub run_handler-IsRefused :
      (c : CommandId) → c ≢ cmd_login → IsRefused r s (run_handler env c r s)
  unfolding run_handler
  run_handler-IsRefused cmd_login h = absurd (h refl)
  run_handler-IsRefused cmd_logout h = unfold handle_logout_command in ground (arith, out)
  run_handler-IsRefused cmd_users h = unfold handle_users_command in ground (arith, absent)
  run_handler-IsRefused cmd_user_info h = unfold handle_user_command in ground (arith, absent)
  run_handler-IsRefused cmd_send h = unfold handle_send_command in ground (arith, out)
  run_handler-IsRefused cmd_messages h = unfold handle_messages_command in ground (arith, out)
  run_handler-IsRefused cmd_subscribe h = unfold handle_subscribe_command in ground (arith, no_user)
  run_handler-IsRefused cmd_unsubscribe h =
      unfold handle_unsubscribe_command in ground (arith, no_user)
  run_handler-IsRefused cmd_subscribed_list h =
      unfold handle_subscribed_list_command in ground (arith, no_user)
  run_handler-IsRefused cmd_use h = unfold handle_use_command in ground (arith, absent)
  run_handler-IsRefused cmd_create h = unfold handle_create_command in ground (arith, no_user)
  run_handler-IsRefused cmd_list h = unfold handle_list_command in ground (arith, no_user)
  run_handler-IsRefused cmd_info h = unfold handle_info_command in ground (arith, no_user)
