-- ===== src/Commands/CreateRequest.antt =====
-- The requests of server/commands/create_command.cpp: how each payload is read. `none` stands for the
-- status ERR_BAD_REQUEST, which these functions queue before they return false.
use teams_mirror.Prelude.{◌==◌, not, ◌||◌, Option, none, some, if◌then◌else◌, ◌>>=◌, is_empty}
use teams_mirror.Bytes.{Bytes, extract_fixed_string}
use teams_mirror.Protocol.Requests.{
  size_req_create_team, decode_req_create_team, size_req_create_channel, decode_req_create_channel,
  size_req_create_thread, decode_req_create_thread, size_req_create_reply, decode_req_create_reply,
}
use teams_mirror.Server.{Request}

unfoldable pub parse_create_team_payload : Request → Option (Bytes × Bytes)
unfolding decode_req_create_team extract_fixed_string
parse_create_team_payload r = if not (r.payload_size == size_req_create_team) then none else (do
  name ← extract_fixed_string (decode_req_create_team r.payload_data).team_name
  description ← extract_fixed_string (decode_req_create_team r.payload_data).team_description
  if is_empty name then none else some (name, description))

unfoldable pub parse_create_channel_payload : Request → Option (Bytes × Bytes)
unfolding decode_req_create_channel extract_fixed_string
parse_create_channel_payload r =
    if not (r.payload_size == size_req_create_channel) then none else (do
      name ← extract_fixed_string (decode_req_create_channel r.payload_data).channel_name
      description ←
          extract_fixed_string (decode_req_create_channel r.payload_data).channel_description
      if is_empty name then none else some (name, description))

unfoldable pub parse_create_thread_payload : Request → Option (Bytes × Bytes)
unfolding decode_req_create_thread extract_fixed_string
parse_create_thread_payload r = if not (r.payload_size == size_req_create_thread) then none else (do
  title ← extract_fixed_string (decode_req_create_thread r.payload_data).thread_title
  body ← extract_fixed_string (decode_req_create_thread r.payload_data).thread_body
  if is_empty title || is_empty body then none else some (title, body))

unfoldable pub parse_create_reply_payload : Request → Option Bytes
unfolding decode_req_create_reply extract_fixed_string
parse_create_reply_payload r = if not (r.payload_size == size_req_create_reply) then none else (do
  body ← extract_fixed_string (decode_req_create_reply r.payload_data).reply_body
  if is_empty body then none else some body)
