-- ===== src/Commands/PrivateMessages.antt =====
-- server/commands/send_command.cpp and messages_command.cpp
pub mod Conversation
pub mod Answer
use teams_mirror.Prelude.{
  ℕ, suc, ◌==◌, Bool, true, false, not, ◌&&◌, ◌||◌, Option, none, some, List, [], ◌∷◌, ◌++◌,
  if◌then◌else◌, ◌>>=◌, same, is_empty, any_of, keep_if, nat_eq, bytes_eq,
}
use teams_mirror.Prelude.Int.{ℤ, to_u64}
use teams_mirror.Bytes.{Bytes, copy_padded_string, extract_fixed_string}
use teams_mirror.Map.{Map, find, emplace}
use teams_mirror.Fields.{zeroed}
use teams_mirror.Protocol.Limits.{uuid_length, max_body_length}
use teams_mirror.Protocol.{
  rpl_ok, rpl_messages_list, err_bad_request, err_unauthorized, err_not_found, evt_private_msg_rcvd,
}
use teams_mirror.Protocol.Requests.{
  size_req_send_msg, decode_req_send_msg, size_req_target_user, decode_req_target_user,
}
use teams_mirror.Protocol.Replies.{
  PayloadRplMessage, encode_rpl_message, PayloadEvtPrivateMsg, encode_evt_private_msg,
}
use teams_mirror.Packet.{status_packet}
use teams_mirror.Server.{
  Env, Server, Request, private_message_sent, log, queue_status, queue_reply, queue_each,
}
use teams_mirror.Server.Uuid.{is_uuid_format_valid, generate_uuid}
use teams_mirror.Models.User.{User}
use teams_mirror.Models.Message.{Message}
use teams_mirror.Models.Message
use teams_mirror.Commands.Lookup.{user_has_uuid, find_user_by_uuid}

unfoldable pub private_message_payload : Message → PayloadEvtPrivateMsg
unfolding copy_padded_string
private_message_payload msg = record {
  sender_uuid = copy_padded_string (zeroed uuid_length) (Message.get_author_uuid msg);
  message_body = copy_padded_string (zeroed max_body_length) (Message.get_body msg);
}

-- The vector of the receiver's descriptors, which `map[uuid]` makes if it is missing.
abbrev pub sessions : Bytes → Map Bytes (List ℕ) → List ℕ
sessions uuid m = elim (find uuid m) [ none ↦ [] | some fds ↦ fds ]

unfoldable pub send_message : Message → Server → Server
unfolding private_message_payload
send_message msg s =
    let touched = record s {
      authenticated_users_by_uuid =
          emplace (Message.get_receiver_uuid msg) [] s.authenticated_users_by_uuid;
    } in
    queue_each (sessions (Message.get_receiver_uuid msg) touched.authenticated_users_by_uuid)
      (status_packet evt_private_msg_rcvd (encode_evt_private_msg (private_message_payload msg)))
      (log
        (private_message_sent (Message.get_author_uuid msg) (Message.get_receiver_uuid msg)
          (Message.get_body msg))
        touched)

-- The body and the receiver; `none` where the code answers ERR_BAD_REQUEST.
unfoldable pub parse_send_payload : Request → Option (Bytes × Bytes)
unfolding decode_req_send_msg extract_fixed_string
parse_send_payload r = do
  body ← extract_fixed_string (decode_req_send_msg r.payload_data).message_body
  target_uuid ← extract_fixed_string (decode_req_send_msg r.payload_data).target_uuid
  if not (is_uuid_format_valid target_uuid) || is_empty body then none else some (body, target_uuid)

abbrev pub new_message : Env → Bytes → Bytes → Bytes → Server → Message
new_message env author body target_uuid s =
    Message.make (generate_uuid env.draw s.draws).0 author (env.time s.clock_reads) body target_uuid

unfoldable pub store_message : Env → Bytes → Bytes → Bytes → Server → Server
store_message env author body target_uuid s = record s {
  messages = s.messages ++ new_message env author body target_uuid s ∷ [];
  draws = (generate_uuid env.draw s.draws).1;
  clock_reads = suc s.clock_reads;
}

unfoldable pub handle_send_command : Env → Request → Server → Server
unfolding store_message send_message
handle_send_command env r s =
    if not (r.payload_size == size_req_send_msg)
    then queue_status r err_bad_request s
    else elim (find r.client_fd s.authenticated_users_by_fd) [
      | none ↦ queue_status r err_unauthorized s
      | some author ↦ elim (parse_send_payload r) [
        | none ↦ queue_status r err_bad_request s
        | some (body, target_uuid) ↦
            if not (any_of (user_has_uuid target_uuid) s.users)
            then queue_status r err_not_found s
            else queue_status r rpl_ok (
                send_message (new_message env author body target_uuid s)
                  (store_message env author body target_uuid s))
      ]
    ]

unfoldable pub message_payload : Message → PayloadRplMessage
unfolding copy_padded_string
message_payload msg = record {
  sender_uuid = copy_padded_string (zeroed uuid_length) (Message.get_author_uuid msg);
  message_timestamp = to_u64 msg.created_at;
  message_body = copy_padded_string (zeroed max_body_length) (Message.get_body msg);
}

unfoldable pub queue_messages : Request → List Message → Server → Server
queue_messages r [] s = s
queue_messages r (msg ∷ msgs) s =
    queue_messages r msgs
      (queue_reply r rpl_messages_list (encode_rpl_message (message_payload msg)) s)

-- A message of the conversation between the client's user and the target.
unfoldable pub is_between : Bytes → Bytes → Message → Bool
is_between client target msg =
    (same (Message.get_author_uuid msg) target && same (Message.get_receiver_uuid msg) client)
    || (same (Message.get_author_uuid msg) client && same (Message.get_receiver_uuid msg) target)

unfoldable pub conversation : Env → Bytes → Bytes → List Message → List Message
unfolding is_between
conversation env client target messages =
    env.sort_by_creation (keep_if (is_between client target) messages)

unfoldable pub parse_messages_payload : Request → Option Bytes
unfolding decode_req_target_user extract_fixed_string
parse_messages_payload r = do
  target_uuid ← extract_fixed_string (decode_req_target_user r.payload_data).target_uuid
  if is_uuid_format_valid target_uuid then some target_uuid else none

unfoldable pub handle_messages_command : Env → Request → Server → Server
unfolding parse_messages_payload conversation
handle_messages_command env r s =
    if not (r.payload_size == size_req_target_user)
    then queue_status r err_bad_request s
    else elim (find r.client_fd s.authenticated_users_by_fd) [
      | none ↦ queue_status r err_unauthorized s
      | some client ↦ elim (parse_messages_payload r) [
        | none ↦ queue_status r err_bad_request s
        | some target ↦ elim (find_user_by_uuid target s.users) [
          | none ↦ queue_status r err_not_found s
          | some user ↦
              queue_status r rpl_ok (queue_messages r (conversation env client target s.messages) s)
        ]
      ]
    ]
