-- ===== src/Commands/UserQueries.antt =====
-- server/commands/users_command.cpp and user_command.cpp
use teams_mirror.Prelude.{
  ◌==◌, not, Option, none, some, List, [], ◌∷◌, if◌then◌else◌, is_empty, nat_eq,
}
use teams_mirror.Bytes.{Bytes, copy_padded_string, extract_fixed_string}
use teams_mirror.Map.{contains}
use teams_mirror.Fields.{zeroed}
use teams_mirror.Protocol.Limits.{uuid_length, max_name_length}
use teams_mirror.Protocol.{
  rpl_ok, rpl_users_list, rpl_user_info, err_bad_request, err_unauthorized, err_not_found,
}
use teams_mirror.Protocol.Requests.{size_req_target_user, decode_req_target_user}
use teams_mirror.Protocol.Replies.{PayloadRplUser, encode_rpl_user, encode_err_unknown}
use teams_mirror.Server.{Server, Request, queue_status, queue_reply}
use teams_mirror.Models.User.{User, logged_in}
use teams_mirror.Models.User
use teams_mirror.Commands.Lookup.{find_user_by_uuid}

unfoldable pub build_user_payload : User → PayloadRplUser
unfolding copy_padded_string logged_in
build_user_payload user = record {
  user_uuid = copy_padded_string (zeroed uuid_length) (User.get_uuid user);
  user_name = copy_padded_string (zeroed max_name_length) (User.get_name user);
  user_status = if logged_in user then 1 else 0;
}

unfoldable pub queue_users : Request → List User → Server → Server
queue_users r [] s = s
queue_users r (user ∷ users) s =
    queue_users r users (queue_reply r rpl_users_list (encode_rpl_user (build_user_payload user)) s)

unfoldable pub handle_users_command : Request → Server → Server
handle_users_command r s =
    if not (r.payload_size == 0)
    then queue_status r err_bad_request s
    else if not (contains r.client_fd s.authenticated_users_by_fd)
    then queue_status r err_unauthorized s
    else queue_status r rpl_ok (queue_users r s.users s)

abbrev pub unknown_uuid_payload : Bytes → Bytes
unknown_uuid_payload uuid =
    encode_err_unknown (record { unknown_uuid = copy_padded_string (zeroed uuid_length) uuid })

abbrev pub queue_user : Request → Bytes → Option User → Server → Server
queue_user r uuid none s = queue_reply r err_not_found (unknown_uuid_payload uuid) s
queue_user r uuid (some user) s =
    queue_reply r rpl_user_info (encode_rpl_user (build_user_payload user)) s

unfoldable pub handle_user_command : Request → Server → Server
unfolding decode_req_target_user extract_fixed_string
handle_user_command r s =
    if not (r.payload_size == size_req_target_user)
    then queue_status r err_bad_request s
    else if not (contains r.client_fd s.authenticated_users_by_fd)
    then queue_status r err_unauthorized s
    else elim (extract_fixed_string (decode_req_target_user r.payload_data).target_uuid) [
      | none ↦ queue_status r err_bad_request s
      | some uuid ↦
          if is_empty uuid
          then queue_status r err_bad_request s
          else queue_user r uuid (find_user_by_uuid uuid s.users) s
    ]
