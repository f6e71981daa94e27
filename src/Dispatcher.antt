-- ===== src/Dispatcher.antt =====
-- server/commands/command_dispatcher.cpp: choosing the handler of a packet, and taking the packets out of a
-- client's incoming buffer.
pub mod Authorization
pub mod Queries
pub mod Incoming
pub mod Termination
pub mod Table
pub mod Stream
use teams_mirror.Prelude.{
  ℕ, zero, suc, ◌+◌, ◌==◌, Bool, Option, none, some, List, [], ◌∷◌, if◌then◌else◌, ltb, length,
  take, drop, find_if,
}
use teams_mirror.Bytes.{Bytes}
use teams_mirror.Protocol.{
  CommandId, cmd_login, cmd_logout, cmd_users, cmd_user_info, cmd_send, cmd_messages, cmd_subscribe,
  cmd_unsubscribe, cmd_subscribed_list, cmd_use, cmd_create, cmd_list, cmd_info, command_code,
  err_bad_request,
}
use teams_mirror.Packet.{PacketHeader, header_size, decode_header}
use teams_mirror.Clients.{get_incoming_buffer, consume_incoming_buffer}
use teams_mirror.Server.{Env, Server, Request, queue_status}
use teams_mirror.Commands.Login.{handle_login_command}
use teams_mirror.Commands.Logout.{handle_logout_command}
use teams_mirror.Commands.UserQueries.{handle_users_command, handle_user_command}
use teams_mirror.Commands.Use.{handle_use_command}
use teams_mirror.Commands.Subscription.{
  handle_subscribe_command, handle_unsubscribe_command, handle_subscribed_list_command,
}
use teams_mirror.Commands.PrivateMessages.{handle_send_command, handle_messages_command}
use teams_mirror.Commands.Listing.{handle_list_command}
use teams_mirror.Commands.Info.{handle_info_command}
use teams_mirror.Commands.Create.{handle_create_command}

-- A handler of the table; nothing where it searches without an end.
abbrev pub CommandHandler : Type 0
CommandHandler = Env → Request → Server → Option Server

-- COMMAND_HANDLERS: the codes in the order of the table, each with its handler.
abbrev pub command_handlers : List (ℕ × CommandHandler)
command_handlers =
    (command_code cmd_login, handle_login_command)
    ∷ (command_code cmd_users, λ env r s. some (handle_users_command r s))
    ∷ (command_code cmd_user_info, λ env r s. some (handle_user_command r s))
    ∷ (command_code cmd_info, λ env r s. some (handle_info_command r s))
    ∷ (command_code cmd_logout, λ env r s. some (handle_logout_command r s))
    ∷ (command_code cmd_use, λ env r s. some (handle_use_command r s))
    ∷ (command_code cmd_create, handle_create_command)
    ∷ (command_code cmd_list, λ env r s. some (handle_list_command r s))
    ∷ (command_code cmd_subscribe, λ env r s. some (handle_subscribe_command r s))
    ∷ (command_code cmd_unsubscribe, λ env r s. some (handle_unsubscribe_command r s))
    ∷ (command_code cmd_subscribed_list, λ env r s. some (handle_subscribed_list_command r s))
    ∷ (command_code cmd_messages, λ env r s. some (handle_messages_command env r s))
    ∷ (command_code cmd_send, λ env r s. some (handle_send_command env r s))
    ∷ []

unfoldable pub find_handler : ℕ → Option (ℕ × CommandHandler)
unfolding find_if command_code
find_handler code = find_if (λ entry. entry.0 == code) command_handlers

unfoldable pub dispatch_command : Env → ℕ → Request → Server → Option Server
unfolding find_handler
dispatch_command env code r s = elim (find_handler code) [
  | none ↦ some (queue_status r err_bad_request s)
  | some (_, handler) ↦ handler env r s
]

-- The handler that the table has for each command.
unfoldable pub run_handler : Env → CommandId → Request → Server → Option Server
run_handler env cmd_login r s = handle_login_command env r s
run_handler env cmd_logout r s = some (handle_logout_command r s)
run_handler env cmd_users r s = some (handle_users_command r s)
run_handler env cmd_user_info r s = some (handle_user_command r s)
run_handler env cmd_send r s = some (handle_send_command env r s)
run_handler env cmd_messages r s = some (handle_messages_command env r s)
run_handler env cmd_subscribe r s = some (handle_subscribe_command r s)
run_handler env cmd_unsubscribe r s = some (handle_unsubscribe_command r s)
run_handler env cmd_subscribed_list r s = some (handle_subscribed_list_command r s)
run_handler env cmd_use r s = some (handle_use_command r s)
run_handler env cmd_create r s = handle_create_command env r s
run_handler env cmd_list r s = some (handle_list_command r s)
run_handler env cmd_info r s = some (handle_info_command r s)

-- The packet at the head of a buffer, if it is whole: its code, its payload, and its size with the header.
unfoldable pub next_packet : Bytes → Option (ℕ × Bytes × ℕ)
unfolding decode_header
next_packet buffer =
    if ltb (length buffer) header_size
    then none
    else if ltb (length buffer) (header_size + (decode_header buffer).payload_size)
    then none
    else some (
      (decode_header buffer).code,
      take (decode_header buffer).payload_size (drop header_size buffer),
      header_size + (decode_header buffer).payload_size,
    )

abbrev pub request_of : ℕ → Bytes → Bytes → Request
request_of fd buffer payload = record {
  client_fd = fd;
  payload_data = payload;
  payload_size = (decode_header buffer).payload_size;
}

abbrev pub consume_packet : ℕ → ℕ → Server → Server
consume_packet fd size s = record s { clients = consume_incoming_buffer fd size s.clients }

-- What the loop comes to: the server when the buffer holds no whole packet any more; nothing, where a
-- handler gave nothing; or fuel that was not enough.
pub data Processed : Type 0 where
  finished : Server → Processed
  unanswered : Processed
  out_of_fuel : Processed

-- The loop, on fuel.
unfoldable pub process_client_incoming_packets : ℕ → Env → ℕ → Server → Processed
unfolding next_packet
process_client_incoming_packets zero env fd s = out_of_fuel
process_client_incoming_packets (suc fuel) env fd s =
    let buffer = get_incoming_buffer fd s.clients in
    elim (next_packet buffer) [
      | none ↦ finished s
      | some (code, payload, size) ↦
          elim (dispatch_command env code (request_of fd buffer payload) s) [
            | none ↦ unanswered
            | some s' ↦ process_client_incoming_packets fuel env fd (consume_packet fd size s')
          ]
    ]
