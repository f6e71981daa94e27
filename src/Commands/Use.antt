-- ===== src/Commands/Use.antt =====
-- server/commands/use_command.cpp
pub mod Context
use teams_mirror.Prelude.{
  ◌==◌, Bool, true, false, not, ◌&&◌, ◌||◌, Option, none, some, List, [], ◌∷◌, if◌then◌else◌, ◌>>=◌,
  nat_eq,
}
use teams_mirror.Bytes.{Bytes, extract_fixed_string}
use teams_mirror.Map.{contains}
use teams_mirror.Protocol.{rpl_ok, err_bad_request, err_unauthorized}
use teams_mirror.Protocol.Requests.{
  size_req_team_target, decode_req_team_target, size_req_use, decode_req_use,
}
use teams_mirror.Clients.{set_context}
use teams_mirror.Server.{Server, Request, queue_status}
use teams_mirror.Server.Uuid.{is_uuid_format_valid}
use teams_mirror.Commands.Lookup.{is_context_combination_valid}

-- An array that starts with NUL is the empty identifier.
unfoldable pub extract_optional_uuid : Bytes → Option Bytes
extract_optional_uuid [] = none
extract_optional_uuid (c ∷ cs) = if c == 0 then some [] else (do
  uuid ← extract_fixed_string (c ∷ cs)
  if is_uuid_format_valid uuid then some uuid else none)

-- The three identifiers; `none` where the code answers ERR_BAD_REQUEST.
unfoldable pub parse_use_payload : Request → Option (Bytes × Bytes × Bytes)
unfolding extract_optional_uuid is_context_combination_valid decode_req_use decode_req_team_target
parse_use_payload r =
    if r.payload_size == size_req_team_target
    then (do
      team_uuid ← extract_optional_uuid (decode_req_team_target r.payload_data).team_uuid
      some (team_uuid, [], []))
    else (do
      team_uuid ← extract_optional_uuid (decode_req_use r.payload_data).team_uuid
      channel_uuid ← extract_optional_uuid (decode_req_use r.payload_data).channel_uuid
      thread_uuid ← extract_optional_uuid (decode_req_use r.payload_data).thread_uuid
      if is_context_combination_valid team_uuid channel_uuid thread_uuid
          then some (team_uuid, channel_uuid, thread_uuid)
          else none)

unfoldable pub handle_use_command : Request → Server → Server
handle_use_command r s =
    if not (r.payload_size == size_req_team_target) && not (r.payload_size == size_req_use)
    then queue_status r err_bad_request s
    else if not (contains r.client_fd s.authenticated_users_by_fd)
    then queue_status r err_unauthorized s
    else elim (parse_use_payload r) [
      | none ↦ queue_status r err_bad_request s
      | some (team_uuid, channel_uuid, thread_uuid) ↦ queue_status r rpl_ok (record s {
        clients = set_context r.client_fd team_uuid channel_uuid thread_uuid s.clients;
      })
    ]
