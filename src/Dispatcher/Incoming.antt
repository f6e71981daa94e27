-- ===== src/Dispatcher/Incoming.antt =====
-- No handler touches an incoming buffer.
pub mod Handlers
pub mod Creations
use teams_mirror.Prelude.{
  ℕ, suc, ◌≡◌, refl, ◌∙◌, ap, sym, Bool, true, false, not, Option, none, some, List, [], ◌∷◌, ◌++◌,
  arith, if◌then◌else◌, ◌==◌, nat_eq, Option-cases, Bool-cases, inl, inr, any_of, update_if,
  is_empty, some_inj, find_if,
}
use teams_mirror.Prelude.Int.{ℤ}
use teams_mirror.Bytes.{Bytes, extract_fixed_string}
use teams_mirror.Map.{Map, find, contains}
use teams_mirror.Protocol.{
  StatusCode, CommandId, cmd_login, cmd_logout, cmd_users, cmd_user_info, cmd_send, cmd_messages,
  cmd_subscribe, cmd_unsubscribe, cmd_subscribed_list, cmd_use, cmd_create, cmd_list, cmd_info,
  err_bad_request, err_unauthorized,
}
use teams_mirror.Protocol.Requests.{decode_req_login}
use teams_mirror.Clients.{
  ClientManager, queue_data_to_send, get_incoming_buffer, get_context_team_uuid,
  get_context_channel_uuid, get_context_thread_uuid,
}
use teams_mirror.Clients.Incoming.{
  incoming, incoming-queue, incoming-set_context, get_incoming-find, or_empty,
}
use teams_mirror.Server.{Env, Server, Request, queue_packet, queue_status, queue_reply, queue_each}
use teams_mirror.Server.Queueing.{queue_each_lem, queue_data_each}
use teams_mirror.Server.Uuid.{generate_unique, generate_uuid}
use teams_mirror.Models.User.{User, add_logged_in}
use teams_mirror.Models.User
use teams_mirror.Models.Message.{Message}
use teams_mirror.Models.Message
use teams_mirror.Models.Thread.{Thread, add_reply}
use teams_mirror.Models.Thread
use teams_mirror.Models.Channel.{Channel, add_thread}
use teams_mirror.Models.Channel
use teams_mirror.Models.Team.{Team, add_channel}
use teams_mirror.Commands.Lookup.{
  get_authenticated_user, user_has_uuid, user_has_name, find_user_by_name, find_user_by_uuid,
}
use teams_mirror.Commands.Login.{complete_login, create_user, login_as, handle_login_command}
use teams_mirror.Commands.Login.Outcome.{LoginOutcome, passed, handle_login-outcome}
use teams_mirror.Commands.Login.Outcome
use teams_mirror.Commands.Logout.{
  unregister_session, broadcast_logged_out_event, handle_logout_command,
}
use teams_mirror.Commands.Subscription.{
  queue_user_info, handle_subscribe_command, handle_unsubscribe_command,
}
use teams_mirror.Commands.PrivateMessages.{
  send_message, store_message, new_message, parse_send_payload, handle_send_command,
}
use teams_mirror.Commands.Use.{handle_use_command}
use teams_mirror.Commands.Create.{
  handle_create_team, handle_create_channel, handle_create_thread, handle_create_reply,
  create_in_context, handle_create_command, change_team, change_channel, change_thread, new_team,
  store_team,
}
use teams_mirror.Commands.CreateAnswers.{
  announce_team, announce_channel, announce_thread, announce_reply, queue_packet_to_loged_user,
  queue_packet_to_team_subscribers,
}
use teams_mirror.Commands.Create.Outcome.{
  TeamOutcome, ChannelOutcome, ThreadOutcome, ReplyOutcome, answered, exhausted, created,
  handle_create_team-outcome, handle_create_channel-outcome, handle_create_thread-outcome,
  handle_create_reply-outcome,
}
use teams_mirror.Dispatcher.{run_handler, dispatch_command}
use teams_mirror.Dispatcher.Table.{dispatch_command-exact}
use teams_mirror.Prelude.{sym, ◌∙◌}
use teams_mirror.Dispatcher.Queries.{IsQuery, query-Answers}
use teams_mirror.Dispatcher.Incoming.Handlers.{
  SameIncoming, KeepsIncoming, status_keeps, logout-SameIncoming, use-SameIncoming,
  subscribe-SameIncoming, unsubscribe-SameIncoming,
}
use teams_mirror.Dispatcher.Incoming.Creations.{
  create-KeepsIncoming, send-SameIncoming, login-KeepsIncoming,
}

module _ (env : Env) (r : Request) (s : Server) where
  same_keeps : (t : Server) → SameIncoming s t → KeepsIncoming s (some t)
  same_keeps t k out h = ap (λ x. incoming x.clients) (sym (some_inj h)) ∙ k

  query-KeepsIncoming : (q : CommandId) → IsQuery q → KeepsIncoming s (run_handler env q r s)
  unfolding queue_packet
  query-KeepsIncoming q i out h =
      let (t, result, (bytes, e)) = query-Answers env q r s i in
      ap (λ x. incoming x.clients) (sym (some_inj (sym result ∙ h)) ∙ e)
      ∙ incoming-queue r.client_fd bytes s.clients

  handler-KeepsIncoming : (c : CommandId) → KeepsIncoming s (run_handler env c r s)
  unfolding run_handler
  handler-KeepsIncoming cmd_login = login-KeepsIncoming env r s
  handler-KeepsIncoming cmd_logout = same_keeps _ (logout-SameIncoming r s)
  handler-KeepsIncoming cmd_send = same_keeps _ (send-SameIncoming env r s)
  handler-KeepsIncoming cmd_subscribe = same_keeps _ (subscribe-SameIncoming r s)
  handler-KeepsIncoming cmd_unsubscribe = same_keeps _ (unsubscribe-SameIncoming r s)
  handler-KeepsIncoming cmd_use = same_keeps _ (use-SameIncoming r s)
  handler-KeepsIncoming cmd_create = create-KeepsIncoming env r s
  handler-KeepsIncoming cmd_users = query-KeepsIncoming cmd_users tt
  handler-KeepsIncoming cmd_user_info = query-KeepsIncoming cmd_user_info tt
  handler-KeepsIncoming cmd_messages = query-KeepsIncoming cmd_messages tt
  handler-KeepsIncoming cmd_subscribed_list = query-KeepsIncoming cmd_subscribed_list tt
  handler-KeepsIncoming cmd_list = query-KeepsIncoming cmd_list tt
  handler-KeepsIncoming cmd_info = query-KeepsIncoming cmd_info tt

  -- Whatever a dispatched packet holds, if its handler gives a result, it leaves the incoming buffers of all clients as they are.
  pub dispatch-KeepsIncoming :
      (code : ℕ) (out : Server)
      → dispatch_command env code r s ≡ some out
      → incoming out.clients ≡ incoming s.clients
  dispatch-KeepsIncoming code out h = elim (dispatch_command-exact env r s code) [
    | inl (command, _, e) ↦ handler-KeepsIncoming command out (sym e ∙ h)
    | inr (_, e) ↦ status_keeps s r err_bad_request _ refl out (sym e ∙ h)
  ]
